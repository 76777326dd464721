-- ===== src/Netutil.antt =====
-- pkg/netutil: the listener that serves several protocols, and `HostPort`; with the handlers that
-- internal/app/proxy.go puts on it.
pub mod Serve
pub mod Join
pub mod Handles
pub mod Hpkp
pub mod Resolver
use flakes.Common.{
  ℕ, Bool, true, false, ◌&&◌, if◌then◌else◌, ltb, leb, ◌==◌, List, [], ◌∷◌, ◌++◌, Option, none,
  some, Bytes, codes, bytes_eq, take, length, get_elem?, split_host_port, join_host_port,
  cut_prefix, ◌||◌,
}

-- What `BuffConn.Peek` gives: bytes, an error, or nothing yet, as it waits for the peer.
pub data Peeked : Type 0 where
  bytes : Bytes → Peeked
  fails waits : Peeked

-- `BuffConn.Peek(n)` where the peer has sent `sent`, and has closed or not. With fewer bytes than `n`
-- it waits, or is an error once the peer has closed.
unfoldable pub peek : ℕ → Bytes → Bool → Peeked
peek n sent has_closed =
    if leb n (length sent) then bytes (take n sent) else if has_closed then fails else waits

-- The handlers of `NewProxyServer`.
pub data Server : Type 0 where
  socks5 ssh http : Server

-- What a match function gives; `none` is one that waits.
abbrev pub Matched : Type 0
Matched = Option Bool

unfoldable pub is_socks5 : Peeked → Matched
is_socks5 waits = none
is_socks5 fails = some false
is_socks5 (bytes []) = some false
is_socks5 (bytes (b ∷ magic)) = some (b == 5)

-- `SOCKS5Match`
unfoldable pub socks5_match : Bytes → Bool → Matched
unfolding peek is_socks5
socks5_match sent has_closed = is_socks5 (peek 1 sent has_closed)

unfoldable pub is_ssh : Peeked → Matched
is_ssh waits = none
is_ssh fails = some false
is_ssh (bytes magic) = some (bytes_eq magic (codes "SSH-"))

-- `SSHMatch`
unfoldable pub ssh_match : Bytes → Bool → Matched
unfolding peek is_ssh
ssh_match sent has_closed = is_ssh (peek 4 sent has_closed)

-- `DefaultMatch`
unfoldable pub default_match : Bytes → Bool → Matched
default_match sent has_closed = some true

pub record MuxEntry : Type 0 where
  pub matches : Bytes → Bool → Matched
  pub server : Server

-- `ListenMux.Handle`
unfoldable pub handle : (Bytes → Bool → Matched) → Server → List MuxEntry → List MuxEntry
handle matches server entries = entries ++ record { matches = matches; server = server } ∷ []

-- The handler that gets the connection, a connection that is closed, or one that a match waits for.
pub data Served : Type 0 where
  served_by : Server → Served
  closed waiting : Served

-- `ListenMux.ServeConn`
unfoldable pub serve_conn : List MuxEntry → Bytes → Bool → Served
serve_conn [] sent has_closed = closed
serve_conn (e ∷ entries) sent has_closed =
    let rest = serve_conn entries sent has_closed in
    elim (e.matches sent has_closed) [
      | none ↦ waiting
      | some true ↦ served_by e.server
      | some false ↦ rest
    ]

-- `NewProxyServer`
unfoldable pub proxy_entries : List MuxEntry
unfolding handle
proxy_entries = handle default_match http (handle ssh_match ssh (handle socks5_match socks5 []))

-- `HostPort.UnmarshalText`; `none` is an error.
unfoldable pub unmarshal_text : Bytes → Option Bytes
unmarshal_text text = elim (split_host_port text) [
  | none ↦ none
  | some (host, port) ↦ some (join_host_port host port)
]

unfoldable pub has_prefix : Bytes → Bytes → Bool
has_prefix s p = elim (cut_prefix s p) [ none ↦ false | some rest ↦ true ]

-- `isHTTP`
unfoldable pub is_http : Bytes → Bool
unfolding has_prefix
is_http text =
    has_prefix text (codes "GET ")
    || has_prefix text (codes "POST ")
    || has_prefix text (codes "HTTP/1.")
    || has_prefix text (codes "PUT ")
    || has_prefix text (codes "HEAD ")
    || has_prefix text (codes "DELETE ")
    || has_prefix text (codes "OPTIONS ")

-- `isTLSClientHello`
unfoldable pub is_tls_client_hello : Bytes → Bool
is_tls_client_hello b =
    ltb 5 (length b)
    && (elim (get_elem? b 0) [ none ↦ false | some x ↦ x == 22 ])
    && (elim (get_elem? b 5) [ none ↦ false | some x ↦ x == 1 ])
