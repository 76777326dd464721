-- ===== src/Stackutil/Ports.antt =====
-- A port that is not in range is dialed modulo 2^16.
use flakes.Common.{
  ℕ, ◌%◌, ◌^◌, ◌≡◌, refl, List, [], ◌∷◌, ◌++◌, Option, some, Option-cases, inl, inr, Bytes, atoi,
  arith, split_host_port,
}
use flakes.Dialer.Context
use flakes.Stackutil.{
  Transport, Version, FullAddress, split_network, protocol_number, dial_loop, dial_host,
  dial_context,
}

module _ {ℓ κ} {W : Type ℓ} {C : Type κ}
    (dial : Transport → FullAddress → ℕ → W → (Option C × Option Context.Error) × W)
    (lookup_ip : Version → Bytes → W → (List Bytes × Option Context.Error) × W) where
  dial_loop_same :
      (transport : Transport) (p q : ℕ) (errs : List Context.Error) (ips : List Bytes) (w : W)
      → p % 2 ^ 16 ≡ q % 2 ^ 16
      → dial_loop dial lookup_ip transport p errs ips w
        ≡ dial_loop dial lookup_ip transport q errs ips w
  unfolding dial_loop
  dial_loop_same transport p q errs [] w h = refl
  dial_loop_same transport p q errs (ip ∷ ips) w h =
      let raddr : FullAddress = record { addr = ip; port = q % 2 ^ 16 } in
      let ((conn, err), w') = dial transport raddr (protocol_number ip) w in
      elim (Option-cases err) [
        | inl ok ↦ ground (arith, h, ok)
        | inr (e, bad) ↦
            ground (arith, h, bad, dial_loop_same transport p q (errs ++ e ∷ []) ips w' h)
      ]

  dial_host_same :
      (transport : Transport) (version : Version) (host : Bytes) (p q : ℕ) (w : W)
      → p % 2 ^ 16 ≡ q % 2 ^ 16
      → dial_host dial lookup_ip transport version host p w
        ≡ dial_host dial lookup_ip transport version host q w
  unfolding dial_host
  dial_host_same transport version host p q w h =
      let ((ips, failed), w') = lookup_ip version host w in
      elim (Option-cases failed) [
        | inl ok ↦ rw (dial_host, ok) (dial_loop_same transport p q [] ips w' h)
        | inr (e, bad) ↦ rw (dial_host, bad)
      ]

  -- Two addresses with the same host whose ports are equal modulo 2^16, as 64-bit integers, are
  -- dialed alike, so that the port 65616 is the port 80.
  pub dial_context-ports :
      (network a b host s t : Bytes) (p q : ℕ) (w : W)
      → split_host_port a ≡ some (host, s)
      → split_host_port b ≡ some (host, t)
      → atoi s ≡ some p
      → atoi t ≡ some q
      → p % 2 ^ 16 ≡ q % 2 ^ 16
      → dial_context dial lookup_ip network a w ≡ dial_context dial lookup_ip network b w
  unfolding dial_context
  dial_context-ports network a b host s t p q w ea eb es et h =
      elim (Option-cases (split_network network)) [
        | inl bad ↦ rw (dial_context, bad)
        | inr ((transport, version), ok) ↦
            rw (dial_context, ok, ea, eb, es, et, dial_host_same transport version host p q w h)
              refl
      ]
