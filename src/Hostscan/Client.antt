-- ===== src/Hostscan/Client.antt =====
-- pkg/openconnect/hostscan/client.go: the requests to the hostscan server.
--
-- Package http, the decoder of package xml, package base64 and package io are parameters, the
-- client of `NewHPKPClient` by its fingerprint. A response's body is a number.
use flakes.Common.{
  ℕ, ◌≡◌, ◌∙◌, length, List, [], ◌∷◌, ◌++◌, Option, none, some, Bytes, codes, refl, Option-cases,
  inl, inr,
}
use flakes.OpenConnect.Vpn.{Cause, other, wrapped, Outcome, breaks, gives}
use flakes.Hostscan.Scan.{Attributes, Field, Report, read_manifest}
use flakes.Hostscan.Text.{report_string}

pub record HttpResponse : Type 0 where
  pub status : ℕ
  pub body : ℕ

pub record Request : Type 0 where
  pub method : Bytes
  pub url : Bytes
  pub report : Bytes
  pub cookies : List (Bytes × Bytes)
  pub content_length : ℕ
  pub transfer_encoding : List Bytes

pub record Http {ℓ} (W : Type ℓ) : Type ℓ where
  -- `Error()`
  pub error_text : Cause → Bytes
  -- The error of `http.NewRequest` for a method and a URL.
  pub check_request : Bytes → Bytes → Option Cause
  -- `Get` and `Do` of the client for a fingerprint.
  pub get : Bytes → Bytes → W → Outcome HttpResponse × W
  pub do_request : Bytes → Request → W → Outcome HttpResponse × W
  -- `Decode` of a body, into the token and into the attributes of the fields.
  pub decode_token : ℕ → W → Outcome Bytes × W
  pub decode_fields : ℕ → W → Outcome (List Attributes) × W
  pub read_all : ℕ → W → Outcome Bytes × W
  pub close_body : ℕ → W → W
  -- `base64.StdEncoding.DecodeString`, `strconv.FormatFloat`, and the seconds of `time.Now`.
  pub decode_string : Bytes → Outcome Bytes
  pub format_float : ℕ → ℕ → Bytes
  pub now : W → ℕ
  pub debug_log : Bytes → Bytes → W → W

pub record Client : Type 0 where
  pub host : Bytes
  pub fingerprint : Bytes

unfoldable pub new_client : Bytes → Bytes → Client
new_client host fingerprint = record { host = host; fingerprint = fingerprint }

-- A manifest, or its error as a text.
unfoldable pub manifest_of : (Cause → Bytes) → Outcome (List Attributes) → Outcome (List Field)
unfolding read_manifest
manifest_of error_text (gives vs) = gives (read_manifest vs)
manifest_of error_text (breaks e) =
    breaks (other (codes "Error parsing hostscan manifest: " ++ error_text e))

unfoldable pub token_of : Outcome Bytes → Outcome Bytes
token_of (gives token) = gives token
token_of (breaks e) = breaks (wrapped (codes "Error parsing hostscan token") e)

module _ {ℓ} {W : Type ℓ} (http : Http W) where
  -- What follows a `Get`, with the deferred close of the body.
  unfoldable pub decoded :
      {A : Type 0} → Bytes → (ℕ → W → Outcome A × W) → Outcome HttpResponse × W → Outcome A × W
  decoded op decode (breaks e, w) = (breaks (wrapped op e), w)
  decoded op decode (gives res, w) =
      let (r, w') = decode res.body w in (r, http.close_body res.body w')

  unfoldable pub get_manifest : Client → W → Outcome (List Field) × W
  unfolding decoded manifest_of
  get_manifest c w =
      decoded (codes "Error fetching hostscan manifest")
        (λ b w1. let (r, w2) = http.decode_fields b w1 in (manifest_of http.error_text r, w2))
        (http.get c.fingerprint (codes "https://" ++ c.host ++ codes "/CACHE/sdesktop/data.xml") w)

  unfoldable pub token_url : Client → Bytes → Bytes → Bytes
  token_url c ticket stub =
      codes "https://"
      ++ c.host
      ++ codes "/+CSCOE+/sdesktop/token.xml?ticket="
      ++ ticket
      ++ codes "&stub="
      ++ stub

  unfoldable pub get_token : Client → Bytes → Bytes → W → Outcome Bytes × W
  unfolding decoded token_of token_url
  get_token c ticket stub w =
      decoded (codes "Error fetching hostscan token")
        (λ b w1. let (r, w2) = http.decode_token b w1 in (token_of r, w2))
        (http.get c.fingerprint (token_url c ticket stub) w)

  -- The request that posts a report.
  unfoldable pub report_request : Client → Bytes → Bytes → Request
  report_request c report token = record {
    method = codes "POST";
    url = codes "https://" ++ c.host ++ codes "/+CSCOE+/sdesktop/scan.xml?reusebrowser=1";
    report = report;
    cookies = (codes "sdesktop", token) ∷ [];
    content_length = length report;
    transfer_encoding = codes "identity" ∷ [];
  }

  unfoldable pub post_report : Client → Report → Bytes → W → Outcome HttpResponse × W
  unfolding report_request report_string
  post_report c report token w =
      let req = report_request c (report_string http.format_float report) token in
      elim (http.check_request req.method req.url) [
        | some e ↦ (breaks e, w)
        | none ↦ http.do_request c.fingerprint req w
      ]

-- How `net/http` treats the open bodies: a response opens its body, `Close` closes the one opened
-- last, and an error, a decoder, a reader and a log change nothing.
unfoldable pub Opened {ℓ} : {W : Type ℓ} → (W → List ℕ) → List ℕ → Outcome HttpResponse × W → Type 0
Opened bodies bs (breaks e, w) = bodies w ≡ bs
Opened bodies bs (gives res, w) = bodies w ≡ res.body ∷ bs

pub record Keeps {ℓ} {W : Type ℓ} (http : Http W) (bodies : W → List ℕ) : Type ℓ where
  pub get_opens :
      (fingerprint url : Bytes) (w : W) → Opened bodies (bodies w) (http.get fingerprint url w)
  pub do_opens :
      (fingerprint : Bytes) (req : Request) (w : W)
      → Opened bodies (bodies w) (http.do_request fingerprint req w)
  pub token_keeps : (b : ℕ) (w : W) → bodies (http.decode_token b w).1 ≡ bodies w
  pub fields_keep : (b : ℕ) (w : W) → bodies (http.decode_fields b w).1 ≡ bodies w
  pub read_keeps : (b : ℕ) (w : W) → bodies (http.read_all b w).1 ≡ bodies w
  pub log_keeps : (msg response : Bytes) (w : W) → bodies (http.debug_log msg response w) ≡ bodies w
  pub close_closes :
      (b : ℕ) (bs : List ℕ) (w : W) → bodies w ≡ b ∷ bs → bodies (http.close_body b w) ≡ bs

module _ {ℓ} {W : Type ℓ} (http : Http W) (bodies : W → List ℕ) (keeps : Keeps http bodies) where
  decoded-closes :
      {A : Type 0} (bs : List ℕ) (op : Bytes) (decode : ℕ → W → Outcome A × W)
      (r : Outcome HttpResponse × W)
      → Opened bodies bs r
      → ((b : ℕ) (w : W) → bodies (decode b w).1 ≡ bodies w)
      → bodies (decoded http op decode r).1 ≡ bs
  unfolding decoded Opened
  decoded-closes bs op decode (breaks e, w) opened same = opened
  decoded-closes bs op decode (gives res, w) opened same =
      keeps.close_closes res.body bs _ (same res.body w ∙ opened)

  -- `GetManifest` leaves no body open, whether or not it fails.
  pub get_manifest-closes : (c : Client) (w : W) → bodies (get_manifest http c w).1 ≡ bodies w
  unfolding get_manifest
  get_manifest-closes c w =
      decoded-closes (bodies w) _ _ _ (keeps.get_opens _ _ w) λ b w1. keeps.fields_keep b w1

  -- `GetToken` leaves no body open, whether or not it fails.
  pub get_token-closes :
      (c : Client) (ticket stub : Bytes) (w : W)
      → bodies (get_token http c ticket stub w).1 ≡ bodies w
  unfolding get_token
  get_token-closes c ticket stub w =
      decoded-closes (bodies w) _ _ _ (keeps.get_opens _ _ w) λ b w1. keeps.token_keeps b w1

  -- `PostReport` leaves open only the body of the response that it gives.
  pub post_report-opens :
      (c : Client) (report : Report) (token : Bytes) (w : W)
      → Opened bodies (bodies w) (post_report http c report token w)
  unfolding post_report report_request Opened
  post_report-opens c report token w =
      let req = report_request http c (report_string http.format_float report) token in
      elim (Option-cases (http.check_request req.method req.url)) [
        | inl good ↦ rw (post_report, good) (keeps.do_opens c.fingerprint req w)
        | inr (e, bad) ↦ rw (post_report, bad) refl
      ]
