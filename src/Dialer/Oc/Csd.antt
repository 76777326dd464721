-- ===== src/Dialer/Oc/Csd.antt =====
-- pkg/dialer/oc/oc.go: ProcessCSD, which posts a hostscan report.
use flakes.Common.{
  ℕ, ◌==◌, ◌≡◌, refl, ◌∙◌, if◌then◌else◌, List, ◌∷◌, ◌++◌, Option, none, some, Bytes, codes, inl,
  inr, subst, Bool-cases,
}
use flakes.Hostscan.Scan.{scan}
use flakes.Hostscan.Client.{
  HttpResponse, Http, Client, new_client, get_manifest, get_token, post_report, Opened, Keeps,
  get_manifest-closes, get_token-closes, post_report-opens,
}
use flakes.OpenConnect.Vpn.{Cause, other, wrapped, Outcome, breaks, gives, is_set}
use flakes.OpenConnect.Bridge.{CsdInfo}

-- `if err != nil { return fmt.Errorf("…: %w", err) }`
unfoldable pub try {ℓ} :
    {W : Type ℓ} {A : Type 0}
    → Bytes
    → Outcome A × W
    → (A → W → Option Cause × W)
    → Option Cause × W
try op (breaks e, w) k = (some (wrapped op e), w)
try op (gives a, w) k = k a w

module _ {ℓ} {W : Type ℓ} (http : Http W) where
  -- The token: that of the ticket, where there is one, with the stub `"0"` by default.
  unfoldable pub csd_token : Client → CsdInfo → W → Outcome Bytes × W
  unfolding get_token
  csd_token c info w =
      if is_set info.ticket
      then get_token http c info.ticket (if is_set info.stub then info.stub else codes "0") w
      else (gives info.token, w)

  unfoldable pub check_status : ℕ → Bytes → W → Option Cause × W
  check_status status txt w =
      if status == 200
      then (none, http.debug_log (codes "CSD completed successfully") txt w)
      else (some (other (codes "hostscan server returned error: " ++ txt)), w)

  -- What follows `PostReport`, with the deferred close of the body.
  unfoldable pub read_response : HttpResponse → W → Option Cause × W
  unfolding try check_status
  read_response res w =
      let (err, w') =
        try (codes "read hostscan response") (http.read_all res.body w) (check_status res.status) in
      (err, http.close_body res.body w')

  -- `ProcessCSD`
  unfoldable pub process_csd : CsdInfo → W → Option Cause × W
  unfolding try csd_token read_response new_client get_manifest post_report scan
  process_csd info w =
      try (codes "invalid CSD SHA256") (http.decode_string info.sha256, w)
        λ hash w1.
          let c = new_client info.hostname hash in
          try (codes "fetch hostscan token") (csd_token c info w1) λ token w2.
            try (codes "get hostscan policy") (get_manifest http c w2) λ manifest w3.
              try (codes "post hostscan report")
                (post_report http c (scan (http.now w3) manifest) token w3) read_response

module _ {ℓ} {W : Type ℓ} (http : Http W) (bodies : W → List ℕ) (keeps : Keeps http bodies) where
  try_keeps :
      {A : Type 0} (bs : List ℕ) (op : Bytes) (r : Outcome A × W) (k : A → W → Option Cause × W)
      → bodies r.1 ≡ bs
      → ((a : A) (w : W) → bodies w ≡ bs → bodies (k a w).1 ≡ bs)
      → bodies (try op r k).1 ≡ bs
  unfolding try
  try_keeps bs op (breaks e, w) k same next = same
  try_keeps bs op (gives a, w) k same next = next a w same

  check_keeps :
      (status : ℕ) (txt : Bytes) (w : W) → bodies (check_status http status txt w).1 ≡ bodies w
  unfolding check_status
  check_keeps status txt w = elim (Bool-cases (status == 200)) [
    | inl found ↦ rw (found) (keeps.log_keeps _ txt w)
    | inr other_status ↦ rw (other_status) refl
  ]

  read_closes :
      (bs : List ℕ) (res : HttpResponse) (w : W)
      → bodies w ≡ res.body ∷ bs
      → bodies (read_response http res w).1 ≡ bs
  unfolding read_response
  read_closes bs res w opened = keeps.close_closes res.body bs _ (
      try_keeps (res.body ∷ bs) _ (http.read_all res.body w) (check_status http res.status)
        (keeps.read_keeps res.body w ∙ opened)
        (λ txt w' same. check_keeps res.status txt w' ∙ same))

  csd_token-closes :
      (c : Client) (info : CsdInfo) (w : W) → bodies (csd_token http c info w).1 ≡ bodies w
  unfolding csd_token
  csd_token-closes c info w = elim (Bool-cases (is_set info.ticket)) [
    | inl given ↦ rw (given) (get_token-closes http bodies keeps c info.ticket _ w)
    | inr not_given ↦ rw (not_given) refl
  ]

  post_closes :
      (bs : List ℕ) (op : Bytes) (r : Outcome HttpResponse × W)
      → Opened bodies bs r
      → bodies (try op r (read_response http)).1 ≡ bs
  unfolding try Opened
  post_closes bs op (breaks e, w) opened = opened
  post_closes bs op (gives res, w) opened = read_closes bs res w opened

  -- `ProcessCSD` leaves no response body open, whichever of its steps fails: neither that of the
  -- token, nor that of the manifest, nor that of the posted report. The hypotheses are on `net/http`
  -- and on the readers of a body: a request that succeeds opens the body of its response, and
  -- `Close` closes it.
  pub process_csd-closes : (info : CsdInfo) (w : W) → bodies (process_csd http info w).1 ≡ bodies w
  unfolding process_csd
  process_csd-closes info w =
      try_keeps (bodies w) _ (http.decode_string info.sha256, w) _ refl
        λ hash w1 same1.
          let c = new_client info.hostname hash in
          try_keeps (bodies w) _ (csd_token http c info w1) _ (csd_token-closes c info w1 ∙ same1)
            λ token w2 same2.
              try_keeps (bodies w) _ (get_manifest http c w2) _
                (get_manifest-closes http bodies keeps c w2 ∙ same2)
                λ manifest w3 same3.
                  let r = post_report http c (scan (http.now w3) manifest) token w3 in
                  post_closes (bodies w) _ r (
                    subst (λ bs. Opened bodies bs r) same3
                      (post_report-opens http bodies keeps c (scan (http.now w3) manifest) token
                        w3))
