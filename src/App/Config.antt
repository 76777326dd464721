-- ===== src/App/Config.antt =====
-- internal/app/config.go: the configuration file.
--
-- The disk is a map of contents, with the paths at which each call fails. The texts that package
-- json, package url and package yaml read are parameters. Paths are absolute, as `os.UserHomeDir`
-- gives them.
pub mod Found
use flakes.Common.{
  ℕ, suc, ◌==◌, ◌&&◌, ◌||◌, not, Bool, true, false, if◌then◌else◌, List, [], ◌∷◌, ◌++◌, Option,
  none, some, Bytes, codes, bytes_eq, Map, get, put, split, join, cut_prefix, reverse, ◌⊎◌, inl,
  inr,
}
use flakes.App.Load.{Rule}

-- `url.URL`, without the fields that `UnmarshalJSON` leaves alone.
pub record Url : Type 0 where
  pub scheme : Bytes
  pub user : Option (Bytes × Bytes)
  pub host : Bytes
  pub path : Bytes
  pub raw_query : Bytes

-- `Parts`
pub record Parts : Type 0 where
  pub username : Bytes
  pub password : Bytes
  pub protocol : Bytes
  pub host : Bytes
  pub path : Bytes
  pub options : Map Bytes

-- `json.Unmarshal` into a text and into the parts, `UnmarshalBinary`, and `url.Values.Encode`.
pub record Json : Type 0 where
  pub as_text : Bytes → Option Bytes
  pub as_parts : Bytes → Bytes ⊎ Parts
  pub unmarshal_binary : Bytes → Bytes ⊎ Url
  pub encode : Map Bytes → Bytes

unfoldable pub is_empty : Bytes → Bool
is_empty [] = true
is_empty (c ∷ s) = false

-- An element of an absolute path, on the elements in front of it, the last one first.
unfoldable pub push : List Bytes → Bytes → List Bytes
unfolding is_empty
push front element =
    if is_empty element || bytes_eq element (codes ".")
    then front
    else if bytes_eq element (codes "..")
    then elim front [ [] ↦ [] | parent ∷ grand ↦ grand ]
    else element ∷ front

unfoldable pub push_all : List Bytes → List Bytes → List Bytes
unfolding push
push_all front [] = front
push_all front (element ∷ elements) = push_all (push front element) elements

-- The text of an absolute path, from its last element on.
unfoldable pub rooted : List Bytes → Bytes
unfolding join
rooted elements = b'/' ∷ join b'/' (reverse elements)

-- `path.Clean` of an absolute path
unfoldable pub clean : Bytes → Bytes
unfolding push_all rooted split
clean path = rooted (push_all [] (split b'/' path))

-- `filepath.Dir` of an absolute path
unfoldable pub dir : Bytes → Bytes
unfolding push_all rooted split
dir path = rooted (elim (push_all [] (split b'/' path)) [ [] ↦ [] | name ∷ elements ↦ elements ])

-- The URL of the parts.
unfoldable pub url_of : Json → Parts → Url → Url
unfolding clean is_empty
url_of json p u = record {
  scheme = p.protocol;
  user =
      if not (is_empty p.username) || not (is_empty p.password)
      then some (p.username, p.password)
      else u.user;
  host = p.host;
  path = clean (b'/' ∷ p.path);
  raw_query = elim p.options [
    | [] ↦ u.raw_query
    | option ∷ options ↦ json.encode (option ∷ options)
  ];
}

unfoldable pub parsed_url : Bytes ⊎ Url → Url → Option Bytes × Url
parsed_url (inl err) u = (some err, u)
parsed_url (inr v) u = (none, v)

unfoldable pub parts_url : Json → Bytes ⊎ Parts → Url → Option Bytes × Url
unfolding url_of
parts_url json (inl err) u = (some (codes "failed to unmarshal URL: " ++ err), u)
parts_url json (inr p) u = (none, url_of json p u)

-- `URL.UnmarshalJSON`, with the text of its error
unfoldable pub unmarshal_json : Json → Bytes → Url → Option Bytes × Url
unfolding parsed_url parts_url
unmarshal_json json text u = elim (json.as_text text) [
  | some t ↦ parsed_url (json.unmarshal_binary t) u
  | none ↦ parts_url json (json.as_parts text) u
]

pub data Error : Type 0 where
  no_home stat_failed mkdir_failed write_failed open_failed read_failed : Error
  bad_config : Bytes → Error

-- The home directory; the files and the directories that were made; the paths at which `Stat`,
-- `Open`, `ReadAll`, `MkdirAll` and `WriteFile` fail; and the files that are open.
pub record Disk : Type 0 where
  pub home : Option Bytes
  pub contents : Map Bytes
  pub directories : List Bytes
  pub hides : Bytes → Bool
  pub refuses_open : Bytes → Bool
  pub breaks : Bytes → Bool
  pub refuses_mkdir : Bytes → Bool
  pub refuses_write : Bytes → Bool
  pub opened : List Bytes

-- `Path.ExpandUser`
unfoldable pub expand_user : Bytes → Disk → Error ⊎ Bytes
unfolding clean cut_prefix
expand_user p disk = elim (cut_prefix p (codes "~/")) [
  | none ↦ inr p
  | some s ↦ elim disk.home [ none ↦ inl no_home | some home ↦ inr (clean (home ++ b'/' ∷ s)) ]
]

abbrev pub default_config_path : Bytes
default_config_path = codes "~/.config/pacman/config"

unfoldable pub write_file : Bytes → Bytes → Disk → (Error ⊎ Bytes) × Disk
write_file s text disk =
    if disk.refuses_write s
    then (inl write_failed, disk)
    else (inr default_config_path, record disk { contents = put s text disk.contents })

unfoldable pub make_config : Bytes → Bytes → Disk → (Error ⊎ Bytes) × Disk
unfolding write_file dir
make_config default_config s disk =
    if disk.refuses_mkdir (dir s)
    then (inl mkdir_failed, disk)
    else write_file s default_config (record disk { directories = disk.directories ++ dir s ∷ [] })

unfoldable pub ensure_at : Bytes → Error ⊎ Bytes → Disk → (Error ⊎ Bytes) × Disk
unfolding make_config
ensure_at default_config (inl err) disk = (inl err, disk)
ensure_at default_config (inr s) disk =
    if disk.hides s then (inl stat_failed, disk) else elim (get s disk.contents) [
      | some text ↦ (inr default_config_path, disk)
      | none ↦ make_config default_config s disk
    ]

-- `EnsureDefaultConfigFile`, where the text is that of package docs
unfoldable pub ensure_default_config_file : Bytes → Disk → (Error ⊎ Bytes) × Disk
unfolding ensure_at expand_user
ensure_default_config_file default_config disk =
    ensure_at default_config (expand_user default_config_path disk) disk

-- `Config`: each URL by its text, and each rule, where the pointer to it is not nil.
pub record ConfigFile : Type 0 where
  pub path : Bytes
  pub listen : Bytes
  pub proxies : Map (Option Bytes)
  pub rules : List (Option Rule)

unfoldable pub unmarshaled : Bytes → Bytes ⊎ ConfigFile → Error ⊎ ConfigFile
unmarshaled path (inl err) = inl (bad_config err)
unmarshaled path (inr rs) = inr (record rs { path = path })

unfoldable pub open_file : Bytes → Disk → Disk
open_file s disk = record disk { opened = s ∷ disk.opened }

unfoldable pub close_file : Disk → Disk
close_file disk = record disk { opened = elim disk.opened [ [] ↦ [] | s ∷ files ↦ files ] }

-- The text of a file that `os.Open` opens.
unfoldable pub text_at : Bytes → Disk → Option Bytes
text_at s disk = if disk.hides s || disk.refuses_open s then none else get s disk.contents

module _ (unmarshal : Bytes → Bytes ⊎ ConfigFile) where
  -- Behind `Open`: a file that is read, and closed where the function returns.
  unfoldable pub read_config : Bytes → Bytes → Bytes → Disk → Error ⊎ ConfigFile
  unfolding unmarshaled
  read_config path s text disk =
      if disk.breaks s then inl read_failed else unmarshaled path (unmarshal text)

  unfoldable pub parse_opened : Bytes → Bytes → Option Bytes → Disk → (Error ⊎ ConfigFile) × Disk
  unfolding read_config open_file close_file
  parse_opened path s none disk = (inl open_failed, disk)
  parse_opened path s (some text) disk =
      let disk' = open_file s disk in (read_config path s text disk', close_file disk')

  unfoldable pub parse_at : Bytes → Error ⊎ Bytes → Disk → (Error ⊎ ConfigFile) × Disk
  unfolding parse_opened text_at
  parse_at path (inl err) disk = (inl err, disk)
  parse_at path (inr s) disk = parse_opened path s (text_at s disk) disk

  -- `ParseConfigFile`
  unfoldable pub parse_config_file : Bytes → Disk → (Error ⊎ ConfigFile) × Disk
  unfolding parse_at expand_user
  parse_config_file path disk = parse_at path (expand_user path disk) disk
