-- ===== src/Dialer/Context.antt =====
-- What the dialers share: the interface `proxy.ContextDialer` and the errors.
use flakes.Common.{ℕ, List, [], ◌∷◌, Option, none, some, Bytes}

-- The errors that pkg/dialer makes itself, those of `errors.Join`, and any others by a number.
mutual
  pub data Error : Type 0 where
    bad_address invalid_hostname : Error
    other : ℕ → Error
    joined : Errors → Error

  pub data Errors : Type 0 where
    end : Errors
    error : Error → Errors → Errors

unfoldable pub errors_of : List Error → Errors
errors_of [] = end
errors_of (e ∷ es) = error e (errors_of es)

-- `errors.Join`, which is nil for no error.
unfoldable pub errors_join : List Error → Option Error
unfolding errors_of
errors_join [] = none
errors_join (e ∷ es) = some (joined (errors_of (e ∷ es)))

-- The pair `(net.Conn, error)`; `none` is nil.
abbrev pub Returned {ℓ} : Type ℓ → Type ℓ
Returned C = Option C × Option Error

-- `DialContext` at a network and an address, in a world `W` that the call changes.
abbrev pub ContextDialer {ℓ κ} : Type ℓ → Type κ → Type (ℓ ⊔ κ)
ContextDialer W C = Bytes → Bytes → W → Returned C × W
