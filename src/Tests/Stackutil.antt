-- ===== src/Tests/Stackutil.antt =====
-- pkg/stackutil/dialer.go: a port that is out of range.
use flakes.Common.{
  ℕ, suc, ◌≡◌, refl, List, [], ◌∷◌, none, some, Option, Bytes, codes, atoi, atoi_signed, unsigned,
  digits, has, split_host_port, last_index, bracketed, checked,
}
use flakes.Dialer.Context
use flakes.Stackutil.{Transport, Version, FullAddress, dial_context}
use flakes.Stackutil.Ports.{dial_context-ports}

-- The connection is the port, in a world that counts the calls.
abbrev dial : Transport → FullAddress → ℕ → ℕ → (Option ℕ × Option Context.Error) × ℕ
dial transport raddr number w = ((some raddr.port, none), suc w)

abbrev lookup : Version → Bytes → ℕ → (List Bytes × Option Context.Error) × ℕ
lookup version host w = (((10 ∷ 0 ∷ 0 ∷ 1 ∷ []) ∷ [], none), suc w)

dial_context-ports_example :
    dial_context dial lookup (codes "tcp") (codes "h:65616") 0
    ≡ dial_context dial lookup (codes "tcp") (codes "h:80") 0
unfolding split_host_port last_index bracketed checked has atoi atoi_signed unsigned digits
dial_context-ports_example =
    dial_context-ports dial lookup (codes "tcp") (codes "h:65616") (codes "h:80") (codes "h")
      (codes "65616") (codes "80") 65616 80 0 refl refl refl refl refl
