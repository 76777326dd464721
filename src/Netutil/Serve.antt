-- ===== src/Netutil/Serve.antt =====
-- Which handler a connection gets, and what `HostPort` normalises.
use flakes.Common.{
  ◌≡◌, ◌&&◌, Bool, false, if◌then◌else◌, ◌==◌, [], ◌∷◌, some, Bytes, bytes_eq, has, IsPlain,
  join_host_port, split_host_port-join_host_port, arith, has,
}
use flakes.Netutil.{
  socks5, ssh, http, Served, served_by, waiting, is_socks5, is_ssh, serve_conn, proxy_entries,
  unmarshal_text, socks5_match, ssh_match, default_match, peek,
}

-- Which server a client gets that has sent these bytes and has closed or not: SOCKS by its first byte,
-- SSH by its first four, HTTP by any other four, or by the end. Until then the client waits.
unfoldable pub answer : Bytes → Bool → Served
answer (b ∷ c ∷ d ∷ e ∷ sent) has_closed =
    if b == 5
    then served_by socks5
    else if (b == b'S') && ((c == b'S') && ((d == b'H') && (e == b'-')))
    then served_by ssh
    else served_by http
answer [] has_closed = if has_closed then served_by http else waiting
answer (b ∷ sent) has_closed =
    if b == 5 then served_by socks5 else if has_closed then served_by http else waiting

-- Every connection goes to the SOCKS server where it begins with the byte 5, to the SSH server where
-- it begins with `SSH-`, and to the HTTP server where it begins with four other bytes. A connection of
-- fewer bytes, also of none, goes to the HTTP server once the client has closed it, and waits for the
-- client until then. None is closed unserved.
pub serve_conn-answer :
    (sent : Bytes) (has_closed : Bool)
    → serve_conn proxy_entries sent has_closed ≡ answer sent has_closed
unfolding serve_conn proxy_entries answer socks5_match ssh_match default_match peek is_socks5 is_ssh
    bytes_eq
serve_conn-answer [] has_closed = ground arith
serve_conn-answer (a ∷ []) has_closed = ground arith
serve_conn-answer (a ∷ b ∷ []) has_closed = ground arith
serve_conn-answer (a ∷ b ∷ c ∷ []) has_closed = ground arith
serve_conn-answer (a ∷ b ∷ c ∷ d ∷ sent) has_closed = ground arith

-- A value that `UnmarshalText` has made is left as it is by a second one, where host and port have
-- no brackets and the port no colon.
pub unmarshal_text-join_host_port :
    (host port : Bytes)
    → IsPlain host
    → IsPlain port
    → has b':' port ≡ false
    → unmarshal_text (join_host_port host port) ≡ some (join_host_port host port)
unfolding unmarshal_text
unmarshal_text-join_host_port host port h p np =
    ground (arith, split_host_port-join_host_port host port h p np)
