-- ===== src/Stackutil/Tun.antt =====
-- pkg/stackutil/fdbased.go: the addresses of a tunnel, and its dialer.
--
-- `ParseIP` with `To4`, `ParseCIDR` with `To16`, and what gvisor's stack answers are parameters. Each
-- text of an error is a constructor.
pub mod Cleanup
use flakes.Common.{
  ℕ, ◌+◌, ◌==◌, ◌&&◌, Bool, true, false, if◌then◌else◌, List, [], ◌∷◌, ◌++◌, Option, none, some,
  Bytes, codes, map, join_host_port, ◌⊎◌, inl, inr,
}

pub record NetOptions : Type 0 where
  pub addr : Bytes
  pub netmask : Bytes
  pub netmask6 : Bytes
  pub dns : List Bytes
  pub mtu : ℕ

pub data Protocol : Type 0 where
  ipv4 ipv6 : Protocol

pub record ProtocolAddress : Type 0 where
  pub protocol : Protocol
  pub address : Bytes
  pub prefix_len : ℕ

pub data Error : Type 0 where
  invalid_address invalid_netmask bad_netmask invalid_cidr : Bytes → Error
  nic_failed address_failed : Error

pub record Parsers : Type 0 where
  pub parse_ip4 : Bytes → Option Bytes
  pub parse_cidr : Bytes → Option (Bytes × ℕ)

-- The leading ones of a byte that has no other ones.
unfoldable pub byte_ones : ℕ → Option ℕ
byte_ones v =
    if v == 255
    then some 8
    else if v == 254
    then some 7
    else if v == 252
    then some 6
    else if v == 248
    then some 5
    else if v == 240
    then some 4
    else if v == 224
    then some 3
    else if v == 192
    then some 2
    else if v == 128
    then some 1
    else if v == 0
    then some 0
    else none

unfoldable pub is_zero : Bytes → Bool
is_zero [] = true
is_zero (v ∷ mask) = v == 0 && is_zero mask

-- `IPMask.Size`, where `none` stands for 0, 0: the mask is not ones followed by zeros.
unfoldable pub mask_size : Bytes → Option ℕ
unfolding byte_ones is_zero
mask_size [] = some 0
mask_size (v ∷ mask) =
    let rest = mask_size mask in
    if v == 255
    then elim rest [ none ↦ none | some n ↦ some (8 + n) ]
    else if is_zero mask
    then byte_ones v
    else none

unfoldable pub is_set : Bytes → Bool
is_set [] = false
is_set (c ∷ s) = true

unfoldable pub masked_addrs : NetOptions → Bytes → Option ℕ → List ProtocolAddress × List Error
masked_addrs opts ip none = ([], bad_netmask opts.netmask ∷ [])
masked_addrs opts ip (some ones) =
    (record { protocol = ipv4; address = ip; prefix_len = ones } ∷ [], [])

-- The block for `opts.Addr`, from the address and the netmask that are parsed.
unfoldable pub addrs4 : NetOptions → Option Bytes → Option Bytes → List ProtocolAddress × List Error
unfolding mask_size masked_addrs
addrs4 opts none none = ([], invalid_address opts.addr ∷ invalid_netmask opts.netmask ∷ [])
addrs4 opts none (some mask) = ([], invalid_address opts.addr ∷ [])
addrs4 opts (some ip) none = ([], invalid_netmask opts.netmask ∷ [])
addrs4 opts (some ip) (some mask) = masked_addrs opts ip (mask_size mask)

-- The block for `opts.Netmask6`
unfoldable pub addrs6 : NetOptions → Option (Bytes × ℕ) → List ProtocolAddress × List Error
addrs6 opts none = ([], invalid_cidr opts.netmask6 ∷ [])
addrs6 opts (some (ip, ones)) =
    (record { protocol = ipv6; address = ip; prefix_len = ones } ∷ [], [])

-- `protocolAddrs`; the call is an error where a list of errors is not empty.
unfoldable pub protocol_addrs : Parsers → NetOptions → List ProtocolAddress × List Error
unfolding addrs4 addrs6 is_set
protocol_addrs parsers opts =
    let four =
      if is_set opts.addr
      then addrs4 opts (parsers.parse_ip4 opts.addr) (parsers.parse_ip4 opts.netmask)
      else ([], []) in
    let six =
      if is_set opts.netmask6 then addrs6 opts (parsers.parse_cidr opts.netmask6) else ([], []) in
    (four.0 ++ six.0, four.1 ++ six.1)

-- The stack with its one endpoint: the addresses, the default routes, and whether `cleanup` ran.
pub record Stack : Type 0 where
  pub mtu : ℕ
  pub has_nic : Bool
  pub addresses : List ProtocolAddress
  pub routes : List Protocol
  pub is_closed : Bool
  pub endpoint_closed : Bool

unfoldable pub new_stack : ℕ → Stack
new_stack mtu = record {
  mtu = mtu;
  has_nic = false;
  addresses = [];
  routes = [];
  is_closed = false;
  endpoint_closed = false;
}

unfoldable pub cleanup : Stack → Stack
cleanup s = record s { is_closed = true; endpoint_closed = true }

unfoldable pub add_route : ProtocolAddress → Stack → Stack
add_route a s = record s { addresses = s.addresses ++ a ∷ []; routes = s.routes ++ a.protocol ∷ [] }

-- The dialer: its stack, and the servers of its resolver.
pub record TunDialer : Type 0 where
  pub stack : Stack
  pub servers : List Bytes

-- Whether `CreateNIC` and `AddProtocolAddress` succeed.
module _ (creates : Bool) (adds : ProtocolAddress → Bool) where
  -- The loop over the addresses; `inl` is the stack behind the error.
  unfoldable pub add_addresses : List ProtocolAddress → Stack → Stack ⊎ Stack
  unfolding cleanup add_route
  add_addresses [] s = inr s
  add_addresses (a ∷ addrs) s =
      let rest = add_addresses addrs (add_route a s) in if adds a then rest else inl (cleanup s)

  unfoldable pub added : List Bytes → Stack ⊎ Stack → (List Error × Option Stack) ⊎ TunDialer
  added servers (inl s) = inl (address_failed ∷ [], some s)
  added servers (inr s) = inr (record { stack = s; servers = servers })

  -- From the addresses on; an error has the stack, where there is one.
  unfoldable pub with_addrs :
      NetOptions → List ProtocolAddress → List Error → (List Error × Option Stack) ⊎ TunDialer
  unfolding new_stack cleanup add_addresses added
  with_addrs opts addrs (err ∷ errs) = inl (err ∷ errs, none)
  with_addrs opts addrs [] =
      if creates
      then added (map (λ addr. join_host_port addr (codes "53")) opts.dns)
          (add_addresses addrs (record (new_stack opts.mtu) { has_nic = true }))
      else inl (nic_failed ∷ [], some (cleanup (new_stack opts.mtu)))

  -- `NewTunDialer`, up to the goroutines that copy packets.
  unfoldable pub new_tun_dialer : Parsers → NetOptions → (List Error × Option Stack) ⊎ TunDialer
  unfolding with_addrs protocol_addrs
  new_tun_dialer parsers opts =
      let addrs = protocol_addrs parsers opts in with_addrs opts addrs.0 addrs.1
