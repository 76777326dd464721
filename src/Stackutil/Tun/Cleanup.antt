-- ===== src/Stackutil/Tun/Cleanup.antt =====
-- The stack of a tunnel has its addresses and routes, or is cleaned up.
use flakes.Common.{◌≡◌, true, false, List, [], ◌++◌, Option, none, some, map, ◌⊎◌, inl, inr}
use flakes.Stackutil.Tun.{
  NetOptions, ProtocolAddress, Error, Parsers, Stack, TunDialer, protocol_addrs,
}

-- How `NewTunDialer` ends: an error closes the stack and its endpoint, where they are made; a dialer
-- has the addresses of the options, each with a route to all addresses of its protocol, on a stack
-- that is open, and the options had no error.
pub IsBuilt : Parsers → NetOptions → (List Error × Option Stack) ⊎ TunDialer → Type 0
IsBuilt parsers opts (inl (errs, none)) = errs ≡ (protocol_addrs parsers opts).1
IsBuilt parsers opts (inl (errs, some s)) = (s.is_closed ≡ true) × (s.endpoint_closed ≡ true)
IsBuilt parsers opts (inr d) =
    ((protocol_addrs parsers opts).1 ≡ [])
    × (d.stack.addresses ≡ (protocol_addrs parsers opts).0)
    × (d.stack.routes ≡ map (λ (a : ProtocolAddress). a.protocol) (protocol_addrs parsers opts).0)
    × (d.stack.is_closed ≡ false)
    × (d.stack.endpoint_closed ≡ false)

IsAdded : List ProtocolAddress → Stack → Stack ⊎ Stack → Type 0
IsAdded addrs s (inl s') = (s'.is_closed ≡ true) × (s'.endpoint_closed ≡ true)
IsAdded addrs s (inr s') =
    (s'.addresses ≡ s.addresses ++ addrs)
    × (s'.routes ≡ s.routes ++ map (λ (a : ProtocolAddress). a.protocol) addrs)
    × (s'.is_closed ≡ s.is_closed)
    × (s'.endpoint_closed ≡ s.endpoint_closed)
