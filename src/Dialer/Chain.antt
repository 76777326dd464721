-- ===== src/Dialer/Chain.antt =====
-- pkg/dialer/chain.go: dialers that are tried one after the other.
pub mod Order
use flakes.Common.{List, [], ◌∷◌, ◌++◌, Option, none, some, Bytes}
use flakes.Dialer.Context.{Error, errors_join, Returned, ContextDialer}

-- `ctx_err` is `ctx.Err()`, which time and the calls change with the world.
module _ {ℓ κ} {W : Type ℓ} {C : Type κ} (ctx_err : W → Option Error) where
  -- The loop of `Chain.DialContext`, with the errors so far.
  unfoldable pub chain_loop :
      List Error → List (ContextDialer W C) → Bytes → Bytes → W → Returned C × W
  chain_loop errs [] network address w = ((none, errors_join errs), w)
  chain_loop errs (d ∷ ds) network address w = elim (ctx_err w) [
    | some err ↦ ((none, some err), w)
    | none ↦
        let ((conn, failed), w') = d network address w in
        elim failed [
          | none ↦ ((conn, none), w')
          | some err ↦ chain_loop (errs ++ err ∷ []) ds network address w'
        ]
  ]

  -- `Chain.DialContext`
  unfoldable pub dial_context : List (ContextDialer W C) → ContextDialer W C
  unfolding chain_loop
  dial_context c network address w = chain_loop [] c network address w
