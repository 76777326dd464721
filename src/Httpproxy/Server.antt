-- ===== src/Httpproxy/Server.antt =====
-- pkg/httpproxy/server.go: the HTTP proxy.
--
-- What package net/http, the dialer and the target answer are parameters. A header is the list of its
-- names and values in their order.
pub mod Replies
use flakes.Common.{
  ℕ, Bool, true, false, if◌then◌else◌, List, [], ◌∷◌, ◌++◌, Option, none, some, Bytes, codes,
  bytes_eq, map, ◌⊎◌, inl, inr,
}
use flakes.Netutil.Handles.{
  Handle, context, upstream, client, body, Action, opens, uses, closes, does, defer,
}

pub record Request : Type 0 where
  pub method : Bytes
  pub request_uri : Bytes
  pub host : Bytes
  pub is_abs : Bool
  pub header : List (Bytes × Bytes)

pub record Response : Type 0 where
  pub status_code : ℕ
  pub header : List (Bytes × List Bytes)

pub data Deed : Type 0 where
  -- `http.Error` with a text and a status.
  http_error : Bytes → ℕ → Deed
  handles_locally : Deed
  dials : Bytes → Bytes → Deed
  -- With a method, a URI and the header of the request.
  sends_request : Bytes → Bytes → List (Bytes × Bytes) → Deed
  writes_established : Deed
  adds_header : Bytes → Bytes → Deed
  writes_header : ℕ → Deed
  copies_body : Deed
  joins : Handle → Handle → Deed

-- Whether the writer is a `Hijacker`, the dialer connects, `Hijack` and the write of the answer to
-- CONNECT succeed, what is wrong with a request, what `Client.Do` gives, and `strings.ToUpper`.
pub record Answers : Type 0 where
  pub is_hijacker : Bool
  pub connects : Bytes → Bool
  pub is_hijacked : Bool
  pub is_established : Bool
  pub new_request : Request → Option Bytes
  pub do_request : Request → Bytes ⊎ Response
  pub to_upper : Bytes → Bytes

abbrev pub internal_server_error : Deed
internal_server_error = http_error (codes "Internal Server Error") 500

-- Whether the handler fails: the error is logged.
abbrev pub Handled : Type 0
Handled = Bool × List (Action Deed)

-- `defer` in front of the rest of a handler, behind some actions.
unfoldable pub deferring : List (Action Deed) → Action Deed → Handled → Handled
unfolding defer
deferring before last rest = (rest.0, before ++ defer last rest.1)

-- The loops that copy the header of a response.
unfoldable pub add_values : Bytes → List Bytes → List (Action Deed)
add_values k [] = []
add_values k (v ∷ vv) = does (adds_header k v) ∷ add_values k vv

unfoldable pub add_headers : List (Bytes × List Bytes) → List (Action Deed)
unfolding add_values
add_headers [] = []
add_headers ((k, vv) ∷ header) = add_values k vv ++ add_headers header

module _ (answers : Answers) where
  -- `netutil.Join` with the client, behind the answer to CONNECT.
  unfoldable pub after_hijack : Handled
  after_hijack =
      if answers.is_established
      then (
        false,
        uses client
            ∷ does writes_established
            ∷ uses upstream
            ∷ uses client
            ∷ does (joins upstream client)
            ∷ closes upstream
            ∷ closes client
            ∷ [],
      )
      else (true, uses client ∷ does writes_established ∷ [])

  unfoldable pub after_dial : Handled
  unfolding after_hijack deferring
  after_dial =
      if answers.is_hijacked
      then deferring (opens client ∷ []) (closes client) after_hijack
      else (true, does internal_server_error ∷ [])

  unfoldable pub after_hijacker : Request → Handled
  unfolding after_dial deferring
  after_hijacker r =
      if answers.connects r.host
      then deferring (does (dials (codes "tcp") r.host) ∷ opens upstream ∷ []) (closes upstream)
          after_dial
      else (
        true,
        does (dials (codes "tcp") r.host)
            ∷ does (http_error (codes "Service Unavailable") 503)
            ∷ [],
      )

  -- `tunnel`
  unfoldable pub tunnel : Request → Handled
  unfolding after_hijacker deferring
  tunnel r =
      deferring (opens context ∷ []) (closes context)
        (if answers.is_hijacker then after_hijacker r else (true, does internal_server_error ∷ []))

  unfoldable pub after_do : Response → Handled
  unfolding deferring add_headers
  after_do resp = deferring (opens body ∷ []) (closes body) (
    false,
    add_headers resp.header
        ++ does (writes_header resp.status_code) ∷ uses body ∷ does copies_body ∷ [],
  )

  unfoldable pub after_request : Request → Bytes ⊎ Response → Handled
  unfolding after_do
  after_request r (inl err) =
      (true, does (sends_request r.method r.request_uri r.header) ∷ does (http_error err 502) ∷ [])
  after_request r (inr resp) =
      let rest = after_do resp in
      (rest.0, does (sends_request r.method r.request_uri r.header) ∷ rest.1)

  unfoldable pub after_new : Request → Option Bytes → Handled
  unfolding after_request
  after_new r (some err) = (true, does (http_error err 400) ∷ [])
  after_new r none = after_request r (answers.do_request r)

  -- `forward`
  unfoldable pub forward : Request → Handled
  unfolding after_new deferring
  forward r = deferring (opens context ∷ []) (closes context) (after_new r (answers.new_request r))

  -- `ServeHTTP`, where `has_handler` is whether the server has a handler.
  unfoldable pub serve_http : Bool → Request → Handled
  unfolding tunnel forward
  serve_http has_handler r =
      if bytes_eq (answers.to_upper r.method) (codes "CONNECT")
      then tunnel r
      else if r.is_abs
      then forward r
      else if has_handler
      then (false, does handles_locally ∷ [])
      else (false, does (http_error (codes "400 Bad Request") 400) ∷ [])
