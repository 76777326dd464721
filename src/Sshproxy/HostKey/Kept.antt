-- ===== src/Sshproxy/HostKey/Kept.antt =====
-- The server has the same host key each time that it starts.
use flakes.Common.{
  ℕ, suc, ◌≡◌, refl, false, Option, none, some, Bytes, Bool-cases, get, get-put, bytes_eq_refl, inl,
  inr, arith,
}
use flakes.Sshproxy.HostKey.{
  Files, Crypto, stat, read_file, signer_of, load, after_encode, after_marshal, after_signer,
  after_generate, load_or_generate_host_key,
}

-- The text of a key is parsed as the signer of the key.
abbrev pub IsReadBack : Crypto → Type 0
IsReadBack crypto =
    (private signer : ℕ) (block text : Bytes)
    → crypto.new_signer private ≡ some signer
    → crypto.marshal_key private ≡ some block
    → crypto.encode_pem block ≡ some text
    → crypto.parse_key text ≡ some signer

module _ (crypto : Crypto) (path : Bytes) where
  -- The file is seen and read, and holds the signer.
  IsKept : ℕ → Files → Type 0
  IsKept signer fs =
      (fs.hides path ≡ false)
      × (fs.refuses_read path ≡ false)
      × (text : Bytes) × (get path fs.contents ≡ some text)
      × (crypto.parse_key text ≡ some signer)

  kept-again :
      (signer : ℕ) (fs : Files)
      → IsKept signer fs
      → load_or_generate_host_key crypto path fs ≡ (inr signer, fs)
  unfolding load_or_generate_host_key stat read_file load signer_of IsKept
  kept-again signer fs (seen, plain, text, has, parsed) = ground (arith, seen, plain, has, parsed)

  encode-IsKept :
      (signer : ℕ) (text : Option Bytes) (fs : Files) (found : ℕ)
      → fs.hides path ≡ false
      → fs.refuses_read path ≡ false
      → ((t : Bytes) → text ≡ some t → crypto.parse_key t ≡ some signer)
      → (after_encode crypto path signer text fs).0 ≡ inr found
      → IsKept found (after_encode crypto path signer text fs).1
  unfolding after_encode IsKept
  encode-IsKept signer none fs found seen plain law e = absurd cc
  encode-IsKept signer (some text) fs found seen plain law e =
      elim (Bool-cases (fs.refuses_write path)) [
        | inl w ↦ absurd (ground (arith, w, e))
        | inr w ↦
            rw (after_encode, w)
              (
                seen,
                plain,
                text,
                ground (arith, get-put path path text fs.contents, bytes_eq_refl path),
                ground (arith, law text refl, e, w),
              )
      ]

  marshal-IsKept :
      (signer : ℕ) (block : Option Bytes) (fs : Files) (found : ℕ)
      → fs.hides path ≡ false
      → fs.refuses_read path ≡ false
      → ((b t : Bytes)
          → block ≡ some b
          → crypto.encode_pem b ≡ some t
          → crypto.parse_key t ≡ some signer)
      → (after_marshal crypto path signer block fs).0 ≡ inr found
      → IsKept found (after_marshal crypto path signer block fs).1
  unfolding after_marshal
  marshal-IsKept signer none fs found seen plain law e = absurd cc
  marshal-IsKept signer (some block) fs found seen plain law e =
      encode-IsKept signer (crypto.encode_pem block) fs found seen plain (λ t. law block t refl) e

  signer-IsKept :
      (private : ℕ) (signer : Option ℕ) (fs : Files) (found : ℕ)
      → IsReadBack crypto
      → crypto.new_signer private ≡ signer
      → fs.hides path ≡ false
      → fs.refuses_read path ≡ false
      → (after_signer crypto path private signer fs).0 ≡ inr found
      → IsKept found (after_signer crypto path private signer fs).1
  unfolding after_signer
  signer-IsKept private none fs found law made seen plain e = absurd cc
  signer-IsKept private (some signer) fs found law made seen plain e =
      marshal-IsKept signer (crypto.marshal_key private) fs found seen plain
        (λ b t. law private signer b t made) e

  generate-IsKept :
      (private : Option ℕ) (fs : Files) (found : ℕ)
      → IsReadBack crypto
      → fs.hides path ≡ false
      → fs.refuses_read path ≡ false
      → (after_generate crypto path private fs).0 ≡ inr found
      → IsKept found (after_generate crypto path private fs).1
  unfolding after_generate
  generate-IsKept none fs found law seen plain e = absurd cc
  generate-IsKept (some private) fs found law seen plain e =
      signer-IsKept private (crypto.new_signer private) fs found law refl seen plain e

  parsed-IsKept :
      (fs : Files) (found : ℕ) (text : Bytes) (parsed : Option ℕ)
      → crypto.parse_key text ≡ parsed
      → fs.hides path ≡ false
      → fs.refuses_read path ≡ false
      → get path fs.contents ≡ some text
      → (signer_of crypto parsed fs).0 ≡ inr found
      → IsKept found (signer_of crypto parsed fs).1
  unfolding signer_of IsKept
  parsed-IsKept fs found text none p seen plain has e = absurd cc
  parsed-IsKept fs found text (some signer) p seen plain has e =
      (seen, plain, text, has, ground (arith, p, e))

  load-IsKept :
      (fs : Files) (found : ℕ) (read : Option Bytes)
      → fs.hides path ≡ false
      → fs.refuses_read path ≡ false
      → get path fs.contents ≡ read
      → (load crypto read fs).0 ≡ inr found
      → IsKept found (load crypto read fs).1
  unfolding load signer_of IsKept
  load-IsKept fs found none seen plain has e = absurd cc
  load-IsKept fs found (some text) seen plain has e =
      parsed-IsKept fs found text _ refl seen plain has e

  run-IsKept :
      (fs : Files) (found : ℕ)
      → IsReadBack crypto
      → fs.hides path ≡ false
      → fs.refuses_read path ≡ false
      → (load_or_generate_host_key crypto path fs).0 ≡ inr found
      → IsKept found (load_or_generate_host_key crypto path fs).1
  unfolding load_or_generate_host_key read_file
  run-IsKept fs found law seen plain e = elim (Bool-cases (stat path fs)) [
    | inl there ↦
        rw (load_or_generate_host_key, there, plain)
          (load-IsKept fs found (get path fs.contents) seen plain refl
            (ground (arith, e, there, plain)))
    | inr gone ↦
        rw (load_or_generate_host_key, gone)
          (generate-IsKept (crypto.generate_key fs.made) (record fs { made = suc fs.made }) found
            law seen plain (ground (arith, e, gone)))
  ]

  -- Once the server has a host key, it has the same one at each further start, and changes no file,
  -- where the directory and the file can be read, and the text of a key is parsed as its signer.
  pub load_or_generate-again :
      (fs : Files) (signer : ℕ)
      → IsReadBack crypto
      → fs.hides path ≡ false
      → fs.refuses_read path ≡ false
      → (load_or_generate_host_key crypto path fs).0 ≡ inr signer
      → let fs' = (load_or_generate_host_key crypto path fs).1 in
        load_or_generate_host_key crypto path fs' ≡ (inr signer, fs')
  load_or_generate-again fs signer law seen plain e =
      kept-again signer _ (run-IsKept fs signer law seen plain e)
