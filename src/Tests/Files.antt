-- ===== src/Tests/Files.antt =====
-- internal/app/config.go, internal/app/app.go and the host key of pkg/sshproxy, with small disks.
use flakes.Common.{
  ℕ, ◌≡◌, ◌≢◌, refl, [], ◌∷◌, false, Option, none, some, Bytes, codes, get, bytes_eq, ◌⊎◌,
  cut_prefix, inr,
}
use flakes.Trie.Table.{Runtime}
use flakes.App.Config.{
  Disk, ConfigFile, default_config_path, ensure_default_config_file, parse_config_file, unmarshaled,
  clean, expand_user, parse_at,
}
use flakes.App.Config.Found.{default_file, text_or, ensure-parse}
use flakes.App.Start.{Running, reload_config, new_pacman, urls, reload_parsed}
use flakes.Sshproxy.HostKey.{Crypto, Files, load_or_generate_host_key}
use flakes.Sshproxy.HostKey.Kept.{IsReadBack, load_or_generate-again}

clean_lem : clean (codes "/a//b/./c/../d/") ≡ codes "/a/b/d"
unfolding clean bytes_eq
clean_lem = refl

above_root : clean (codes "/../a") ≡ codes "/a"
unfolding clean bytes_eq
above_root = refl

abbrev disk : Disk
disk = record {
  home = some (codes "/home/u");
  contents = (codes "/home/u/other", codes "text") ∷ [];
  directories = [];
  hides = λ s. false;
  refuses_open = λ s. false;
  breaks = λ s. false;
  refuses_mkdir = λ s. false;
  refuses_write = λ s. false;
  opened = [];
}

abbrev read_listen : Bytes → Bytes ⊎ ConfigFile
read_listen text = inr (record {
  path = [];
  listen = text;
  proxies = (codes "vpn", some (codes "socks5://vpn.example.com")) ∷ [];
  rules = some (record { hosts = codes "a.com" ∷ []; proxies = codes "vpn" ∷ [] }) ∷ [];
})

made : (ensure_default_config_file (codes "listen") disk).0 ≡ inr default_config_path
unfolding ensure_default_config_file get bytes_eq
made = refl

ensure-parse_example :
    let disk' = (ensure_default_config_file (codes "listen") disk).1 in
    let text = text_or (codes "listen") (get (default_file (codes "/home/u")) disk.contents) in
    (parse_config_file read_listen default_config_path disk'
      ≡ (unmarshaled default_config_path (read_listen text), disk'))
    × (default_config_path ≡ default_config_path)
    × ((q : Bytes)
        → q ≢ default_file (codes "/home/u")
        → get q disk'.contents ≡ get q disk.contents)
ensure-parse_example =
    ensure-parse read_listen (codes "listen") (codes "/home/u") default_config_path disk refl refl
      refl refl made

abbrev plain : Runtime
plain = record { grow = λ c n. n; parse_cidr = λ s. none; parse_ip = λ s. none; show_net = λ n. [] }

abbrev running : Running
running = record {
  config = codes "/home/u/other";
  app = new_pacman;
  disk = disk;
  notifications = [];
  opened = [];
}

-- A null among the proxies of the file.
abbrev read_null : Bytes → Bytes ⊎ ConfigFile
read_null text =
    inr (record { path = []; listen = text; proxies = (codes "vpn", none) ∷ []; rules = [] })

null_panics : reload_config plain (λ u. []) read_null running ≡ none
unfolding reload_config parse_config_file expand_user cut_prefix parse_at get bytes_eq reload_parsed
    urls
null_panics = refl

abbrev first_byte : Bytes → Option ℕ
first_byte [] = none
first_byte (c ∷ s) = some c

-- Keys that are their own signers, with texts of one byte.
abbrev crypto : Crypto
crypto = record {
  generate_key = λ n. some n;
  new_signer = λ n. some n;
  marshal_key = λ n. some (n ∷ []);
  encode_pem = λ block. some block;
  parse_key = λ text. first_byte text;
}

abbrev files : Files
files = record {
  contents = [];
  hides = λ s. false;
  refuses_read = λ s. false;
  refuses_write = λ s. false;
  made = 7;
}

crypto-IsReadBack : IsReadBack crypto
crypto-IsReadBack private signer block text a b c =
    let same : private ∷ [] ≡ text = cc in rw⁻¹ same a

generated : (load_or_generate_host_key crypto (codes "/key") files).0 ≡ inr 7
unfolding load_or_generate_host_key get
generated = refl

load_or_generate-again_example :
    let fs' = (load_or_generate_host_key crypto (codes "/key") files).1 in
    load_or_generate_host_key crypto (codes "/key") fs' ≡ (inr 7, fs')
load_or_generate-again_example =
    load_or_generate-again crypto (codes "/key") files 7 crypto-IsReadBack refl refl generated
