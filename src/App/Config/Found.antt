-- ===== src/App/Config/Found.antt =====
-- The configuration that the default file has is the one that is read.
use flakes.Common.{
  ◌≡◌, ◌≢◌, refl, sym, ap, ◌∙◌, false, ◌∷◌, ◌++◌, Option, none, some, Bytes, codes, get, get-put,
  bytes_eq_refl, bytes_eq-false, cut_prefix, ◌⊎◌, inl, inr, Bool-cases, arith,
}
use flakes.App.Config.{
  Error, Disk, ConfigFile, clean, expand_user, default_config_path, write_file, make_config,
  ensure_at, ensure_default_config_file, unmarshaled, read_config, open_file, close_file, parse_at,
  parse_opened, text_at, parse_config_file, dir,
}

-- Where the default file is.
abbrev pub default_file : Bytes → Bytes
default_file home = clean (home ++ b'/' ∷ codes ".config/pacman/config")

-- A file's text, which is the default one where there is no file.
unfoldable pub text_or : Bytes → Option Bytes → Bytes
text_or default_config none = default_config
text_or default_config (some text) = text

expand_default :
    (home : Bytes) (disk : Disk)
    → disk.home ≡ some home
    → expand_user default_config_path disk ≡ inr (default_file home)
unfolding expand_user cut_prefix
expand_default home disk h = rw (h) refl

-- What `EnsureDefaultConfigFile` leaves, where it succeeds.
record IsEnsured (default_config s path : Bytes) (disk disk' : Disk) : Type 0 where
  at_default : path ≡ default_config_path
  has : get s disk'.contents ≡ some (text_or default_config (get s disk.contents))
  others : (q : Bytes) → q ≢ s → get q disk'.contents ≡ get q disk.contents
  same_home : disk'.home ≡ disk.home
  same_hides : disk'.hides s ≡ disk.hides s
  same_refuses : disk'.refuses_open s ≡ disk.refuses_open s
  same_breaks : disk'.breaks s ≡ disk.breaks s

make-IsEnsured :
    (default_config s path : Bytes) (disk : Disk)
    → get s disk.contents ≡ none
    → (make_config default_config s disk).0 ≡ inr path
    → IsEnsured default_config s path disk (make_config default_config s disk).1
unfolding make_config write_file text_or
make-IsEnsured default_config s path disk e ok = elim (Bool-cases (disk.refuses_mkdir (dir s))) [
  | inl m ↦ absurd (ground (arith, m, ok))
  | inr m ↦ elim (Bool-cases (disk.refuses_write s)) [
    | inl w ↦ absurd (ground (arith, m, w, ok))
    | inr w ↦
        rw (make_config, m, write_file, w)
          (record {
            at_default = ground (arith, m, w, ok);
            has = ground (arith, get-put s s default_config disk.contents, bytes_eq_refl s, e);
            others = λ q other. ground (
              arith,
              get-put s q default_config disk.contents,
              bytes_eq-false s q (λ h. other (sym h)),
            );
            same_home = refl;
            same_hides = refl;
            same_refuses = refl;
            same_breaks = refl;
          })
  ]
]

ensure_at-IsEnsured :
    (default_config s path : Bytes) (text : Option Bytes) (disk : Disk)
    → get s disk.contents ≡ text
    → disk.hides s ≡ false
    → (ensure_at default_config (inr s) disk).0 ≡ inr path
    → IsEnsured default_config s path disk (ensure_at default_config (inr s) disk).1
unfolding ensure_at text_or
ensure_at-IsEnsured default_config s path none disk e seen ok =
    rw (ensure_at, seen, e)
      (make-IsEnsured default_config s path disk e (ground (arith, ok, e, seen)))
ensure_at-IsEnsured default_config s path (some text) disk e seen ok =
    rw (ensure_at, seen, e)
      (record {
        at_default = ground (arith, seen, e, ok);
        has = ground (arith, e);
        others = λ q other. refl;
        same_home = refl;
        same_hides = refl;
        same_refuses = refl;
        same_breaks = refl;
      })

-- A file that can be read is parsed, and is closed again.
parse_at-reads :
    (unmarshal : Bytes → Bytes ⊎ ConfigFile) (path s text : Bytes) (disk : Disk)
    → get s disk.contents ≡ some text
    → disk.hides s ≡ false
    → disk.refuses_open s ≡ false
    → disk.breaks s ≡ false
    → parse_at unmarshal path (inr s) disk ≡ (unmarshaled path (unmarshal text), disk)
unfolding parse_at parse_opened text_at read_config open_file close_file
parse_at-reads unmarshal path s text disk e seen plain whole =
    rw (parse_at, text_at, seen, plain, e, parse_opened, read_config, whole) refl

-- `EnsureDefaultConfigFile` that succeeds gives the default path, from which `ParseConfigFile` then
-- reads what the file of the user has, or the default configuration where there was no file, where
-- the file can be read. No other file changes, and the file that is read is closed.
pub ensure-parse :
    (unmarshal : Bytes → Bytes ⊎ ConfigFile) (default_config home path : Bytes) (disk : Disk)
    → disk.home ≡ some home
    → disk.hides (default_file home) ≡ false
    → disk.refuses_open (default_file home) ≡ false
    → disk.breaks (default_file home) ≡ false
    → (ensure_default_config_file default_config disk).0 ≡ inr path
    → let disk' = (ensure_default_config_file default_config disk).1 in
      let text = text_or default_config (get (default_file home) disk.contents) in
      (parse_config_file unmarshal path disk' ≡ (unmarshaled path (unmarshal text), disk'))
      × (path ≡ default_config_path)
      × ((q : Bytes) → q ≢ default_file home → get q disk'.contents ≡ get q disk.contents)
unfolding ensure_default_config_file parse_config_file
ensure-parse unmarshal default_config home path disk h seen plain whole ok =
    let s = default_file home in
    let expanded = expand_default home disk h in
    let done : IsEnsured default_config s path disk
        (ensure_default_config_file default_config disk).1 =
      rw (ensure_default_config_file, expanded)
        (ensure_at-IsEnsured default_config s path _ disk refl seen
          (sym (ap (λ e. (ensure_at default_config e disk).0) expanded) ∙ ok)) in
    let disk' = (ensure_default_config_file default_config disk).1 in
    let expanded' : expand_user path disk' ≡ inr s =
      rw (done.at_default) (expand_default home disk' (done.same_home ∙ h)) in
    (
      rw (parse_config_file, expanded')
          (parse_at-reads unmarshal path s _ disk' done.has (done.same_hides ∙ seen)
            (done.same_refuses ∙ plain) (done.same_breaks ∙ whole)),
      done.at_default,
      done.others,
    )

opened-disk :
    (unmarshal : Bytes → Bytes ⊎ ConfigFile) (path s : Bytes) (text : Option Bytes) (disk : Disk)
    → (parse_opened unmarshal path s text disk).1 ≡ disk
unfolding parse_opened open_file close_file
opened-disk unmarshal path s none disk = refl
opened-disk unmarshal path s (some text) disk = refl

-- `ParseConfigFile` leaves the disk as it was: the file that it opens is closed.
parse_at-disk :
    (unmarshal : Bytes → Bytes ⊎ ConfigFile) (path : Bytes) (place : Error ⊎ Bytes) (disk : Disk)
    → (parse_at unmarshal path place disk).1 ≡ disk
unfolding parse_at
parse_at-disk unmarshal path (inl err) disk = refl
parse_at-disk unmarshal path (inr s) disk = opened-disk unmarshal path s (text_at s disk) disk

pub parse-disk :
    (unmarshal : Bytes → Bytes ⊎ ConfigFile) (path : Bytes) (disk : Disk)
    → (parse_config_file unmarshal path disk).1 ≡ disk
unfolding parse_config_file
parse-disk unmarshal path disk = parse_at-disk unmarshal path (expand_user path disk) disk
