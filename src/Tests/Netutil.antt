-- ===== src/Tests/Netutil.antt =====
-- pkg/netutil on the first bytes of some protocols.
use flakes.Common.{◌≡◌, refl, true, false, [], ◌∷◌, codes, cut_prefix}
use flakes.Netutil.{
  waiting, socks5_match, ssh_match, serve_conn, proxy_entries, is_http, is_tls_client_hello,
  has_prefix,
}
use flakes.Netutil.Serve.{answer, serve_conn-answer}

get_request : is_http (codes "GET / HTTP/1.1") ≡ true
unfolding is_http has_prefix cut_prefix
get_request = refl

client_hello : is_tls_client_hello (22 ∷ 3 ∷ 1 ∷ 0 ∷ 5 ∷ 1 ∷ []) ≡ true
unfolding is_tls_client_hello
client_hello = refl

serve_conn-answer_example :
    serve_conn proxy_entries (codes "SSH-2.0") false ≡ answer (codes "SSH-2.0") false
serve_conn-answer_example = serve_conn-answer (codes "SSH-2.0") false

-- A client that has sent three bytes and no more gets no server yet.
short : serve_conn proxy_entries (codes "SSH") false ≡ waiting
unfolding serve_conn proxy_entries socks5_match ssh_match
short = refl
