-- ===== src/Httpproxy/Server/Replies.antt =====
-- Each request has one answer, and what it opens is closed.
use flakes.Common.{
  ℕ, suc, ◌≡◌, refl, ◌∙◌, Bool, true, false, if◌then◌else◌, List, [], ◌∷◌, ◌++◌, Option, some, none,
  Bytes, append_assoc, ◌⊎◌, inl, inr, codes, bytes_eq,
}
use flakes.Netutil.Handles.{
  Handle, context, body, Action, opens, uses, closes, does, defer, settle, is_open, close, same,
}
use flakes.Httpproxy.Server.{
  Request, Response, copies_body, after_new, sends_request, Deed, http_error, handles_locally,
  writes_established, writes_header, Answers, Handled, deferring, after_hijack, after_dial,
  after_hijacker, tunnel, add_values, add_headers, after_do, after_request, forward, serve_http,
}

-- Whether the client gets an answer by it.
pub is_reply : Deed → Bool
is_reply (http_error text status) = true
is_reply handles_locally = true
is_reply writes_established = true
is_reply (writes_header status) = true
is_reply deed = false

pub replies : List (Action Deed) → ℕ
unfolding is_reply
replies [] = 0
replies (does a ∷ actions) = if is_reply a then suc (replies actions) else replies actions
replies (a ∷ actions) = replies actions

abbrev IsSettled : Handled → Type 0
IsSettled h = (settle [] h.1 ≡ some []) × (replies h.1 ≡ 1)

-- A header adds no handle and no answer.
values-pass :
    (k : Bytes) (vv : List Bytes) (handles : List Handle) (rest : List (Action Deed))
    → (settle handles (add_values k vv ++ rest) ≡ settle handles rest)
      × (replies (add_values k vv ++ rest) ≡ replies rest)
unfolding add_values settle replies is_reply
values-pass k [] handles rest = (refl, refl)
values-pass k (v ∷ vv) handles rest = values-pass k vv handles rest

headers-pass :
    (header : List (Bytes × List Bytes)) (handles : List Handle) (rest : List (Action Deed))
    → (settle handles (add_headers header ++ rest) ≡ settle handles rest)
      × (replies (add_headers header ++ rest) ≡ replies rest)
unfolding add_headers
headers-pass [] handles rest = (refl, refl)
headers-pass ((k, vv) ∷ header) handles rest =
    let (settled, replied) = values-pass k vv handles (add_headers header ++ rest) in
    let (settled', replied') = headers-pass header handles rest in
    rw (append_assoc (add_values k vv) (add_headers header) rest)
      (settled ∙ settled', replied ∙ replied')

do-IsSettled :
    (r : Request) (answers : Answers) (resp : Response)
    → IsSettled (
        deferring (opens context ∷ []) (closes context) (
          let rest = after_do answers resp in
          (rest.0, does (sends_request r.method r.request_uri r.header) ∷ rest.1)))
unfolding deferring after_do settle defer is_open close same replies is_reply
do-IsSettled r answers resp =
    rw
      (
        append_assoc (add_headers resp.header)
            (does (writes_header resp.status_code) ∷ uses body ∷ does copies_body ∷ [])
            (closes body ∷ []),
        append_assoc (add_headers resp.header)
            (does (writes_header resp.status_code)
              ∷ uses body
              ∷ does copies_body
              ∷ closes body
              ∷ [])
            (closes context ∷ []),
      )
      (headers-pass resp.header (body ∷ context ∷ []) (
        does (writes_header resp.status_code)
        ∷ uses body
        ∷ does copies_body
        ∷ closes body
        ∷ closes context
        ∷ []))

request-IsSettled :
    (answers : Answers) (r : Request) (got : Bytes ⊎ Response)
    → IsSettled (deferring (opens context ∷ []) (closes context) (after_request answers r got))
unfolding deferring after_request settle defer is_open close same replies is_reply
request-IsSettled answers r (inl err) = (refl, refl)
request-IsSettled answers r (inr resp) = do-IsSettled r answers resp

new-IsSettled :
    (answers : Answers) (r : Request) (wrong : Option Bytes)
    → IsSettled (deferring (opens context ∷ []) (closes context) (after_new answers r wrong))
unfolding deferring after_new settle defer is_open close same replies is_reply
new-IsSettled answers r (some err) = (refl, refl)
new-IsSettled answers r none = request-IsSettled answers r (answers.do_request r)

if-IsSettled :
    (b : Bool) (h h' : Handled) → IsSettled h → IsSettled h' → IsSettled (if b then h else h')
if-IsSettled true h h' s s' = s
if-IsSettled false h h' s s' = s'

tunnel-IsSettled :
    (answers : Answers) (r : Request) (hijacker connected hijacked established : Bool)
    → answers.is_hijacker ≡ hijacker
    → answers.connects r.host ≡ connected
    → answers.is_hijacked ≡ hijacked
    → answers.is_established ≡ established
    → IsSettled (tunnel answers r)
unfolding tunnel deferring after_hijacker after_dial after_hijack settle defer is_open close same
    replies is_reply
tunnel-IsSettled answers r false c h w e e' f f' = rw (tunnel, e) (refl, refl)
tunnel-IsSettled answers r true false h w e e' f f' = rw (tunnel, e, e') (refl, refl)
tunnel-IsSettled answers r true true false w e e' f f' = rw (tunnel, e, e', f) (refl, refl)
tunnel-IsSettled answers r true true true false e e' f f' = rw (tunnel, e, e', f, f') (refl, refl)
tunnel-IsSettled answers r true true true true e e' f f' = rw (tunnel, e, e', f, f') (refl, refl)

-- Each request is answered exactly once, with an error, by the local handler, with the answer to
-- CONNECT or with the response of the target, whatever fails on the way, and each connection, body
-- and context that it opens is closed, and none of them is used while it is not open.
pub serve_http-IsSettled :
    (answers : Answers) (has_handler : Bool) (r : Request)
    → let actions = (serve_http answers has_handler r).1 in
      (settle [] actions ≡ some []) × (replies actions ≡ 1)
unfolding serve_http forward settle replies is_reply
serve_http-IsSettled answers has_handler r =
    if-IsSettled (bytes_eq (answers.to_upper r.method) (codes "CONNECT")) _ _
      (tunnel-IsSettled answers r _ _ _ _ refl refl refl refl)
      (if-IsSettled r.is_abs _ _ (new-IsSettled answers r (answers.new_request r))
        (if-IsSettled has_handler _ _ (refl, refl) (refl, refl)))
