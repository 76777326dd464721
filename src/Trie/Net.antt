-- ===== src/Trie/Net.antt =====
-- What pkg/trie uses of Go's package net: addresses and masks as byte slices, `IP.To4`,
-- `IPMask.Size` and `IPNet.Contains`.
use Prim.Native.Nat.{bit_and}
use flakes.Common.{
  ℕ, ◌+◌, Bool, true, ◌&&◌, if◌then◌else◌, ◌==◌, [], ◌∷◌, Option, none, some, Bytes, length, take,
  drop, bytes_eq,
}

pub record IpNet : Type 0 where
  pub ip : Bytes
  pub mask : Bytes

-- The prefix of a 16-byte address that stands for an IPv4 address.
v4_in_v6 : Bytes
v4_in_v6 = 0 ∷ 0 ∷ 0 ∷ 0 ∷ 0 ∷ 0 ∷ 0 ∷ 0 ∷ 0 ∷ 0 ∷ 255 ∷ 255 ∷ []

-- `IP.To4`; `none` is nil.
unfoldable pub to_4 : Bytes → Option Bytes
unfolding v4_in_v6
to_4 ip =
    if length ip == 4
    then some ip
    else if length ip == 16 && bytes_eq (take 12 ip) v4_in_v6
    then some (drop 12 ip)
    else none

-- The leading one bits of a byte of a mask; `none` where a one follows a zero.
unfoldable pub byte_ones : ℕ → Option ℕ
byte_ones b =
    if b == 255
    then some 8
    else if b == 254
    then some 7
    else if b == 252
    then some 6
    else if b == 248
    then some 5
    else if b == 240
    then some 4
    else if b == 224
    then some 3
    else if b == 192
    then some 2
    else if b == 128
    then some 1
    else if b == 0
    then some 0
    else none

all_zero : Bytes → Bool
all_zero [] = true
all_zero (b ∷ bs) = b == 0 && all_zero bs

-- The loop of `simpleMaskLength`; `none` is -1.
mask_length : ℕ → Bytes → Option ℕ
mask_length n [] = some n
mask_length n (b ∷ bs) =
    let rest = mask_length (n + 8) bs in
    if b == 255
    then rest
    else elim (byte_ones b) [ none ↦ none | some k ↦ if all_zero bs then some (n + k) else none ]

-- The first result of `IPMask.Size`: 0 for a mask that is not canonical.
unfoldable pub mask_size : Bytes → ℕ
unfolding mask_length all_zero byte_ones
mask_size m = elim (mask_length 0 m) [ none ↦ 0 | some n ↦ n ]

masked_eq : Bytes → Bytes → Bytes → Bool
masked_eq [] m ip = true
masked_eq (x ∷ xs) [] ip = true
masked_eq (x ∷ xs) (m ∷ ms) [] = true
masked_eq (x ∷ xs) (m ∷ ms) (y ∷ ys) = bit_and x m == bit_and y m && masked_eq xs ms ys

-- `networkNumberAndMask`: the last four bytes of a mask of 16 for an address of four.
unfoldable pub number_and_mask : IpNet → Bytes × Bytes
unfolding to_4
number_and_mask n =
    let ip : Bytes = elim (to_4 n.ip) [ none ↦ n.ip | some x ↦ x ] in
    if length ip == 4 && length n.mask == 4
    then (ip, n.mask)
    else if length n.mask == 16 && length ip == 4
    then (ip, drop 12 n.mask)
    else if length n.mask == 16 && length ip == 16
    then (ip, n.mask)
    else ([], [])

-- `IPNet.Contains`
unfoldable pub contains : IpNet → Bytes → Bool
unfolding to_4 masked_eq number_and_mask
contains n ip =
    let (number, mask) = number_and_mask n in
    let addr : Bytes = elim (to_4 ip) [ none ↦ ip | some x ↦ x ] in
    length addr == length number && masked_eq number mask addr
