-- ===== src/Netutil/Hpkp.antt =====
-- pkg/netutil/hpkp.go: the pin of a certificate.
--
-- `x509.ParseCertificate` with `MarshalPKIXPublicKey`, and SHA-256, are parameters.
pub mod Pins
use flakes.Common.{
  ◌≡◌, refl, Bool, true, false, if◌then◌else◌, List, [], ◌∷◌, ◌++◌, Option, none, some, Bytes,
  bytes_eq, bytes_eq_refl, All, ◌⊎◌, inl, inr,
}

pub data PinError : Type 0 where
  unusable : Bytes → PinError
  pin_failed : PinError

module _ (key_of : Bytes → Bytes ⊎ Bytes) (sum256 : Bytes → Bytes) where
  -- `Fingerprint.VerifyPeerCertificate`; `none` is nil.
  unfoldable pub verify_peer_certificate : Bytes → List Bytes → Option PinError
  verify_peer_certificate fp [] = some pin_failed
  verify_peer_certificate fp (raw ∷ raw_certs) =
      let rest = verify_peer_certificate fp raw_certs in
      elim (key_of raw) [
        | inl err ↦ some (unusable err)
        | inr der ↦ if bytes_eq (sum256 der) fp then none else rest
      ]
