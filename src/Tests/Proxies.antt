-- ===== src/Tests/Proxies.antt =====
-- pkg/sshproxy/server.go and pkg/httpproxy/server.go on short sequences.
use flakes.Common.{◌≡◌, ◌∷◌, [], true, false, some, none, inr, codes, List}
use flakes.Netutil.Handles.{settle}
use flakes.Sshproxy.{NewChannel}
use flakes.Httpproxy.Server.{Request, serve_http}
use flakes.Httpproxy.Server.Replies.{replies, serve_http-IsSettled}

abbrev ssh_answers : flakes.Sshproxy.Answers
ssh_answers = record {
  unmarshal = λ text. inr (record {
    host_to_connect = text;
    port_to_connect = 22;
    originator_ip = [];
    originator_port = 0;
  });
  connects = λ network address. true;
  quoted = λ text. text;
}

abbrev two_channels : List NewChannel
two_channels =
    record {
      channel_type = codes "direct-tcpip";
      extra_data = codes "example.com";
      is_accepted = true;
    }
    ∷ record { channel_type = codes "session"; extra_data = []; is_accepted = true }
    ∷ []

abbrev http_answers : flakes.Httpproxy.Server.Answers
http_answers = record {
  is_hijacker = true;
  connects = λ address. true;
  is_hijacked = true;
  is_established = true;
  new_request = λ r. none;
  do_request = λ r. inr (record {
    status_code = 200;
    header = (codes "Server", codes "test" ∷ codes "other" ∷ []) ∷ [];
  });
  to_upper = λ text. text;
}

abbrev request : Request
request = record {
  method = codes "GET";
  request_uri = codes "http://example.com/";
  host = codes "example.com";
  is_abs = true;
  header = [];
}

serve_http-IsSettled_example :
    let actions = (serve_http http_answers false request).1 in
    (settle [] actions ≡ some []) × (replies actions ≡ 1)
serve_http-IsSettled_example = serve_http-IsSettled http_answers false request
