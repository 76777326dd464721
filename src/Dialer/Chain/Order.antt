-- ===== src/Dialer/Chain/Order.antt =====
-- The order of a chain: which dialers are called, and what decides the result.
use flakes.Common.{◌≡◌, ap, List, [], ◌∷◌, ◌++◌, Option, none, some, Option-cases, inl, inr, Bytes}
use flakes.Dialer.Context.{Error, errors_join, Returned, ContextDialer}
use flakes.Dialer.Chain.{chain_loop, dial_context}

module _ {ℓ κ} {W : Type ℓ} {C : Type κ} (ctx_err : W → Option Error)
    (network address : Bytes) where
  -- The ways in which a call of a chain may go, dialer by dialer, with the errors collected.
  pub data Tries : W → List (ContextDialer W C) → List Error → Returned C → W → Type (ℓ ⊔ κ) where
    -- Every dialer has failed: the errors are joined in their order.
    exhausted : {w : W} {errs : List Error} → Tries w [] errs (none, errors_join errs) w
    -- The context has ended: no further dialer is called.
    cancelled :
        {w : W} {ds : List (ContextDialer W C)} {errs : List Error} {d : ContextDialer W C}
        {err : Error}
        → ctx_err w ≡ some err
        → Tries w (d ∷ ds) errs (none, some err) w
    -- The first dialer that succeeds gives the connection: no further dialer is called.
    connected :
        {w w' : W} {ds : List (ContextDialer W C)} {errs : List Error} {d : ContextDialer W C}
        {conn : Option C}
        → ctx_err w ≡ none
        → d network address w ≡ ((conn, none), w')
        → Tries w (d ∷ ds) errs (conn, none) w'
    -- A dialer that fails leaves the rest to try.
    failed :
        {w w' w'' : W} {ds : List (ContextDialer W C)} {errs : List Error} {d : ContextDialer W C}
        {conn : Option C} {err : Error} {r : Returned C}
        → ctx_err w ≡ none
        → d network address w ≡ ((conn, some err), w')
        → Tries w' ds (errs ++ err ∷ []) r w''
        → Tries w (d ∷ ds) errs r w''

  chain_loop-Tries :
      (errs : List Error) (ds : List (ContextDialer W C)) (w : W)
      → let result = chain_loop ctx_err errs ds network address w in
        Tries w ds errs result.0 result.1
  unfolding chain_loop
  chain_loop-Tries errs [] w = exhausted
  chain_loop-Tries errs (d ∷ ds) w = elim (Option-cases (ctx_err w)) [
    | inr (err, ended) ↦ rw (chain_loop, ended) (cancelled ended)
    | inl live ↦
        let ((conn, result), w') = d network address w in
        elim (Option-cases result) [
          | inl ok ↦ rw (chain_loop, live, ok) (connected live (ap (λ r. ((conn, r), w')) ok))
          | inr (err, bad) ↦
              rw (chain_loop, live, bad)
                (failed live (ap (λ r. ((conn, r), w')) bad)
                  (chain_loop-Tries (errs ++ err ∷ []) ds w'))
        ]
  ]

  -- For every chain and every world, `DialContext` goes in one of these ways: it calls the dialers
  -- in their order, stops at the first connection or at the end of the context, and otherwise
  -- joins the errors of all of them.
  pub dial_context-Tries :
      (c : List (ContextDialer W C)) (w : W)
      → let result = dial_context ctx_err c network address w in Tries w c [] result.0 result.1
  unfolding dial_context
  dial_context-Tries c w = chain_loop-Tries [] c w
