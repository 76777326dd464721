-- ===== src/Stackutil.antt =====
-- pkg/stackutil/dialer.go: the dialer of the user-space network stack.
--
-- The stack's own dialing (gonet) and the resolver are parameters, with a world that they change.
pub mod Ports
pub mod Endpoint
pub mod Tun
use flakes.Common.{
  ℕ, ◌%◌, ◌^◌, ◌==◌, Bool, true, false, if◌then◌else◌, List, [], ◌∷◌, ◌++◌, Option, none, some,
  Bytes, codes, bytes_eq, length, atoi, split_host_port,
}
use flakes.Trie.Net.{to_4}
use flakes.Dialer.Context.{errors_join}
use flakes.Dialer.Context

-- The transports and the versions that `splitNetwork` gives.
pub data Transport : Type 0 where
  tcp udp : Transport

pub data Version : Type 0 where
  any four six : Version

-- `splitNetwork`; `none` is its error.
unfoldable pub split_network : Bytes → Option (Transport × Version)
split_network network =
    if bytes_eq network (codes "tcp")
    then some (tcp, any)
    else if bytes_eq network (codes "udp")
    then some (udp, any)
    else if bytes_eq network (codes "tcp4")
    then some (tcp, four)
    else if bytes_eq network (codes "udp4")
    then some (udp, four)
    else if bytes_eq network (codes "tcp6")
    then some (tcp, six)
    else if bytes_eq network (codes "udp6")
    then some (udp, six)
    else none

-- `ipProtocolNumber`
unfoldable pub protocol_number : Bytes → ℕ
protocol_number ip = elim (to_4 ip) [ some v4 ↦ 2048 | none ↦ if length ip == 16 then 34525 else 0 ]

pub data Error : Type 0 where
  unknown_network invalid_address invalid_port no_addresses : Error
  lookup_failed : Context.Error → Error
  dials_failed : Context.Error → Error

-- The address of a connection: an IP address, and a port of 16 bits.
pub record FullAddress : Type 0 where
  pub addr : Bytes
  pub port : ℕ

module _ {ℓ κ} {W : Type ℓ} {C : Type κ}
    (dial : Transport → FullAddress → ℕ → W → (Option C × Option Context.Error) × W)
    (lookup_ip : Version → Bytes → W → (List Bytes × Option Context.Error) × W) where
  -- The loop over the addresses, with the errors so far.
  unfoldable pub dial_loop :
      Transport → ℕ → List Context.Error → List Bytes → W → (Option C × Option Error) × W
  dial_loop transport port errs [] w = elim (errors_join errs) [
    | none ↦ ((none, some no_addresses), w)
    | some e ↦ ((none, some (dials_failed e)), w)
  ]
  dial_loop transport port errs (ip ∷ ips) w =
      let raddr : FullAddress = record { addr = ip; port = port % 2 ^ 16 } in
      let ((conn, err), w') = dial transport raddr (protocol_number ip) w in
      elim err [
        | none ↦ ((conn, none), w')
        | some e ↦ dial_loop transport port (errs ++ e ∷ []) ips w'
      ]

  -- From the resolver on.
  unfoldable pub dial_host : Transport → Version → Bytes → ℕ → W → (Option C × Option Error) × W
  unfolding dial_loop
  dial_host transport version host port w =
      let ((ips, failed), w') = lookup_ip version host w in
      elim failed [
        | some e ↦ ((none, some (lookup_failed e)), w')
        | none ↦ dial_loop transport port [] ips w'
      ]

  -- `Dialer.DialContext`
  unfoldable pub dial_context : Bytes → Bytes → W → (Option C × Option Error) × W
  unfolding dial_host
  dial_context network address w = elim (split_network network) [
    | none ↦ ((none, some unknown_network), w)
    | some (transport, version) ↦ elim (split_host_port address) [
      | none ↦ ((none, some invalid_address), w)
      | some (host, text) ↦ elim (atoi text) [
        | none ↦ ((none, some invalid_port), w)
        | some port ↦ dial_host transport version host port w
      ]
    ]
  ]
