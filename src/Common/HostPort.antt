-- ===== src/Common/HostPort.antt =====
-- `net.SplitHostPort` and `net.JoinHostPort`.
use Prim.Native.Nat.{ℕ, suc, ◌+◌, ◌-◌}
use native.Mathlib.Nat.{suc-add, zero-add}
use mathlib.Core.Path.{◌≡◌, refl}
use mathlib.Core.Logic.{inl, inr}
use mathlib.Core.Bool.{Bool, false, ◌||◌}
use mathlib.Core.List.{[], ◌∷◌, ◌++◌}
use mathlib.Core.Option.{Option, none, some}
use native.Mathlib.Omega.{arith}
use flakes.Common.Tests.{◌==◌, Bool-cases, if◌then◌else◌}
use flakes.Common.Lists.{length, take, drop}
use flakes.Common.Strings.{Bytes}

-- `bytealg.IndexByteString(s, c) >= 0`
unfoldable pub has : ℕ → Bytes → Bool
has c [] = false
has c (x ∷ s) = x == c || has c s

-- The first and the last index of a byte.
unfoldable pub index : ℕ → Bytes → Option ℕ
index c [] = none
index c (x ∷ s) =
    if x == c then some 0 else elim (index c s) [ none ↦ none | some i ↦ some (suc i) ]

unfoldable pub last_index : ℕ → Bytes → Option ℕ
last_index c [] = none
last_index c (x ∷ s) = elim (last_index c s) [
  | none ↦ if x == c then some 0 else none
  | some i ↦ some (suc i)
]

unfoldable pub bracketed : Bytes → Bool
bracketed [] = false
bracketed (c ∷ s) = c == b'['

-- What follows the choice of the host, which stands before the colon at `i`.
unfoldable pub checked : Bytes → ℕ → ℕ → Bytes → ℕ → Option (Bytes × Bytes)
checked host j k s i =
    if has b'[' (drop j s)
    then none
    else if has b']' (drop k s)
    then none
    else some (host, drop (suc i) s)

-- `net.SplitHostPort`; `none` is any of its errors.
unfoldable pub split_host_port : Bytes → Option (Bytes × Bytes)
unfolding checked bracketed
split_host_port s = elim (last_index b':' s) [
  | none ↦ none
  | some i ↦
      if bracketed s
      then elim (index b']' s) [
        | none ↦ none
        | some close ↦
            if suc close == i then checked (take (close - 1) (drop 1 s)) 1 (suc close) s i else none
      ]
      else if has b':' (take i s)
      then none
      else checked (take i s) 0 0 s i
]

-- `net.JoinHostPort`
unfoldable pub join_host_port : Bytes → Bytes → Bytes
join_host_port host port =
    if has b':' host then b'[' ∷ (host ++ b']' ∷ b':' ∷ port) else host ++ b':' ∷ port

pub has-append : (c : ℕ) (s t : Bytes) → has c (s ++ t) ≡ (has c s || has c t)
unfolding has
has-append c [] t = refl
has-append c (x ∷ s) t = ground (arith, has-append c s t)

last_index-none : (c : ℕ) (t : Bytes) → has c t ≡ false → last_index c t ≡ none
unfolding last_index has
last_index-none c [] h = refl
last_index-none c (x ∷ t) h = ground (arith, last_index-none c t)

last_index-append :
    (c : ℕ) (s t : Bytes) (j : ℕ)
    → last_index c t ≡ some j
    → last_index c (s ++ t) ≡ some (length s + j)
unfolding last_index
last_index-append c [] t j h = rw (zero-add, h)
last_index-append c (x ∷ s) t j h = rw (last_index-append c s t j h, suc-add)

last_index_colon : (port : Bytes) → has b':' port ≡ false → last_index b':' (b':' ∷ port) ≡ some 0
unfolding last_index
last_index_colon port h = rw (last_index-none b':' port h)

last_index_close :
    (port : Bytes) → has b':' port ≡ false → last_index b':' (b']' ∷ b':' ∷ port) ≡ some 1
unfolding last_index
last_index_close port h = rw (last_index-none b':' port h)

index-append : (c : ℕ) (s t : Bytes) → has c s ≡ false → index c (s ++ c ∷ t) ≡ some (length s)
unfolding index has
index-append c [] t h = ground arith
index-append c (x ∷ s) t h = ground (arith, index-append c s t)

take_all : (s t : Bytes) → take (length s) (s ++ t) ≡ s
take_all [] t = refl
take_all (x ∷ s) t = rw (take_all s t)

drop_all : (s t : Bytes) → drop (length s) (s ++ t) ≡ t
drop_all [] t = refl
drop_all (x ∷ s) t = drop_all s t

drop_past : (s t : Bytes) (x : ℕ) → drop (suc (length s)) (s ++ x ∷ t) ≡ t
drop_past [] t x = refl
drop_past (y ∷ s) t x = drop_past s t x

drop_past_two : (s t : Bytes) (x y : ℕ) → drop (suc (suc (length s))) (s ++ x ∷ y ∷ t) ≡ t
drop_past_two [] t x y = refl
drop_past_two (z ∷ s) t x y = drop_past_two s t x y

-- A text without the bytes that have a meaning in an address.
pub record IsPlain (s : Bytes) : Type 0 where
  pub no_open : has b'[' s ≡ false
  pub no_close : has b']' s ≡ false

bracketed-append : (s t : Bytes) → has b'[' s ≡ false → bracketed (s ++ b':' ∷ t) ≡ false
unfolding bracketed has
bracketed-append [] t h = refl
bracketed-append (x ∷ s) t h = ground arith

-- The port of an address without brackets.
checked-plain :
    (host port : Bytes)
    → IsPlain host
    → IsPlain port
    → checked host 0 0 (host ++ b':' ∷ port) (length host) ≡ some (host, port)
unfolding checked has
checked-plain host port h p = ground (
  arith,
  has-append b'[' host (b':' ∷ port),
  has-append b']' host (b':' ∷ port),
  drop_past host port b':',
  h.no_open,
  h.no_close,
  p.no_open,
  p.no_close,
)

split-join_plain :
    (host port : Bytes)
    → IsPlain host
    → IsPlain port
    → has b':' host ≡ false
    → has b':' port ≡ false
    → split_host_port (host ++ b':' ∷ port) ≡ some (host, port)
unfolding split_host_port
split-join_plain host port h p nh np = ground (
  arith,
  last_index-append b':' host (b':' ∷ port) 0 (last_index_colon port np),
  bracketed-append host port h.no_open,
  take_all host (b':' ∷ port),
  checked-plain host port h p,
)

checked_v6 :
    (host port : Bytes)
    → IsPlain host
    → IsPlain port
    → checked host 1
        (suc (suc (length host)))
        (b'[' ∷ (host ++ b']' ∷ b':' ∷ port))
        (suc (suc (length host)))
      ≡ some (host, port)
unfolding checked has
checked_v6 host port h p = ground (
  arith,
  has-append b'[' host (b']' ∷ b':' ∷ port),
  drop_past host (b':' ∷ port) b']',
  drop_past_two host port b']' b':',
  h.no_open,
  p.no_open,
  p.no_close,
)

split-join_v6 :
    (host port : Bytes)
    → IsPlain host
    → IsPlain port
    → has b':' port ≡ false
    → split_host_port (b'[' ∷ (host ++ b']' ∷ b':' ∷ port)) ≡ some (host, port)
unfolding split_host_port bracketed has
split-join_v6 host port h p np = ground (
  arith,
  last_index-append b':' (b'[' ∷ host) (b']' ∷ b':' ∷ port) 1 (last_index_close port np),
  index-append b']' (b'[' ∷ host) (b':' ∷ port) h.no_close,
  take_all host (b']' ∷ b':' ∷ port),
  checked_v6 host port h p,
)

-- `SplitHostPort` undoes `JoinHostPort` on a host and a port without brackets, where the port has
-- no colon; the host may have some.
pub split_host_port-join_host_port :
    (host port : Bytes)
    → IsPlain host
    → IsPlain port
    → has b':' port ≡ false
    → split_host_port (join_host_port host port) ≡ some (host, port)
unfolding join_host_port
split_host_port-join_host_port host port h p np = elim (Bool-cases (has b':' host)) [
  | inl v6 ↦ rw v6 (split-join_v6 host port h p np)
  | inr v4 ↦ rw v4 (split-join_plain host port h p v4 np)
]
