-- ===== src/Sshproxy/HostKey.antt =====
-- pkg/sshproxy/server.go: the host key, which is kept in a file.
--
-- The file system is a map of contents, with what fails in it. The RSA keys, their signers and their
-- PEM text are parameters.
pub mod Kept
use flakes.Common.{
  ℕ, suc, ◌≡◌, refl, sym, ◌∙◌, ap, Bool, true, false, if◌then◌else◌, Option, none, some, Bytes, Map,
  get, put, get-put, bytes_eq, bytes_eq_refl, ◌⊎◌, inl, inr,
}

pub data Error : Type 0 where
  read_failed parse_failed generate_failed signer_failed marshal_failed encode_failed save_failed :
      Error

-- The files; which of them cannot be seen, read and written; and the keys that are made next.
pub record Files : Type 0 where
  pub contents : Map Bytes
  pub hides : Bytes → Bool
  pub refuses_read : Bytes → Bool
  pub refuses_write : Bytes → Bool
  pub made : ℕ

-- `rsa.GenerateKey` and `ssh.NewSignerFromKey`, `ssh.MarshalPrivateKey` with `pem.Encode`, and
-- `ssh.ParsePrivateKey`, for keys and signers that are numbers.
pub record Crypto : Type 0 where
  pub generate_key : ℕ → Option ℕ
  pub new_signer : ℕ → Option ℕ
  pub marshal_key : ℕ → Option Bytes
  pub encode_pem : Bytes → Option Bytes
  pub parse_key : Bytes → Option ℕ

-- `os.Stat` without an error.
unfoldable pub stat : Bytes → Files → Bool
stat path fs =
    if fs.hides path then false else elim (get path fs.contents) [ none ↦ false | some _ ↦ true ]

-- `os.ReadFile`
unfoldable pub read_file : Bytes → Files → Option Bytes
read_file path fs = if fs.refuses_read path then none else get path fs.contents

module _ (crypto : Crypto) where
  unfoldable pub signer_of : Option ℕ → Files → (Error ⊎ ℕ) × Files
  signer_of none fs = (inl parse_failed, fs)
  signer_of (some signer) fs = (inr signer, fs)

  unfoldable pub load : Option Bytes → Files → (Error ⊎ ℕ) × Files
  unfolding signer_of
  load none fs = (inl read_failed, fs)
  load (some key_bytes) fs = signer_of (crypto.parse_key key_bytes) fs

  -- `os.WriteFile` of the key, and the signer.
  unfoldable pub after_encode : Bytes → ℕ → Option Bytes → Files → (Error ⊎ ℕ) × Files
  after_encode path signer none fs = (inl encode_failed, fs)
  after_encode path signer (some text) fs =
      if fs.refuses_write path
      then (inl save_failed, fs)
      else (inr signer, record fs { contents = put path text fs.contents })

  unfoldable pub after_marshal : Bytes → ℕ → Option Bytes → Files → (Error ⊎ ℕ) × Files
  unfolding after_encode
  after_marshal path signer none fs = (inl marshal_failed, fs)
  after_marshal path signer (some block) fs = after_encode path signer (crypto.encode_pem block) fs

  unfoldable pub after_signer : Bytes → ℕ → Option ℕ → Files → (Error ⊎ ℕ) × Files
  unfolding after_marshal
  after_signer path private none fs = (inl signer_failed, fs)
  after_signer path private (some signer) fs =
      after_marshal path signer (crypto.marshal_key private) fs

  unfoldable pub after_generate : Bytes → Option ℕ → Files → (Error ⊎ ℕ) × Files
  unfolding after_signer
  after_generate path none fs = (inl generate_failed, fs)
  after_generate path (some private) fs = after_signer path private (crypto.new_signer private) fs

  -- `LoadOrGenerateHostKey`
  unfoldable pub load_or_generate_host_key : Bytes → Files → (Error ⊎ ℕ) × Files
  unfolding stat load read_file after_generate
  load_or_generate_host_key path fs =
      if stat path fs
      then load (read_file path fs) fs
      else after_generate path (crypto.generate_key fs.made) (record fs { made = suc fs.made })
