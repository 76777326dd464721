-- ===== src/Tests/Oc.antt =====
-- pkg/dialer/oc with a small desktop, library and server.
use flakes.Common.{
  ℕ, suc, ◌≡◌, refl, true, false, Bool, List, [], ◌∷◌, codes, Bytes, none, some, Option, bytes_eq,
  cut_prefix, to_lower,
}
use flakes.OpenConnect.Vpn.{Cause, other, breaks, gives, Library, Session, is_set}
use flakes.OpenConnect.Forms.{FormLibrary}
use flakes.OpenConnect.Bridge.{COption, CForm, CsdInfo}
use flakes.OpenConnect.Client.Tun.{TunSystem}
use flakes.Dialer.Oc.{Url, Desktop, State, asked}
use flakes.Hostscan.Client.{Http, Opened}
use flakes.Dialer.Oc.Csd.{process_csd, process_csd-closes}
use flakes.Dialer.Oc.Fill.{assignments, set_all, filled}
use flakes.Dialer.Oc.Connect.{Stack, Enabled, new_dialer}
use flakes.Dialer.Oc.Connect.Ends.{Leaves, new_dialer-Leaves}

-- The world is the list of the values that are set, the last one first.
abbrev World : Type 0
World = List (ℕ × Bytes)

abbrev form_library : FormLibrary World
form_library = record {
  set_option_value = λ h v w. (0, (h, v) ∷ w);
  log = λ msg attrs w. w;
  type_name = λ kind. [];
}

-- The user replies to the notification with "123".
abbrev desktop : Desktop World
desktop = record {
  notify = λ category w.
      (gives (record { identifier = []; action = codes "yubi-auth-token"; text = codes "123" }), w);
  display = λ w. (gives (record { button = 0; input = [] }), w);
  open_uri = λ uri w. (none, w);
  progress = λ level message w. w;
  dismiss_action = codes "dismiss";
  default_action = codes "default";
}

abbrev url : Url
url = record {
  scheme = codes "anyconnect";
  username = codes "me";
  password = codes "pw";
  host = codes "vpn.example.com";
  path = codes "/g";
  token = codes "otp";
}

abbrev field : ℕ → Bool → Bytes → ℕ → COption
field handle is_ignored name kind = record {
  handle = handle;
  is_ignored = is_ignored;
  name = name;
  label = [];
  kind = kind;
  choices = [];
}

abbrev form : CForm
form = record {
  banner = [];
  message = [];
  error = [];
  authgroup_opt = none;
  opts =
      field 1 false (codes "UserName") 1
      ∷ field 2 false (codes "group") 1
      ∷ field 3 true (codes "password") 2
      ∷ field 4 false (codes "password") 2
      ∷ [];
}

abbrev no_csd : CsdInfo → State World → Option Cause × State World
no_csd info s = (none, s)

abbrev session : Session (State World)
session = record {
  vpninfo = some 7;
  err_ch = none;
  process_csd = true;
  handles = 7 ∷ [];
  allocated = 7 ∷ [];
  freed = [];
  world = record { cp = record { username = []; password = [] }; world = [] };
}

filled_lem :
    filled form_library desktop url form [] ≡ (none, (4, codes "pw123") ∷ (1, codes "me") ∷ [])
unfolding filled is_set asked bytes_eq set_all assignments cut_prefix to_lower
filled_lem = refl

-- The open bodies are the world of package http.
abbrev closed : List ℕ → List ℕ
closed [] = []
closed (b ∷ bs) = bs

closed-cons : (b : ℕ) (bs w : List ℕ) → w ≡ b ∷ bs → closed w ≡ bs
closed-cons b bs w e = rw (e) refl

abbrev http : Http (List ℕ)
http = record {
  error_text = λ e. [];
  check_request = λ method url. none;
  get = λ fingerprint url w. (gives (record { status = 200; body = 3 }), 3 ∷ w);
  do_request = λ fingerprint req w. (gives (record { status = 500; body = 4 }), 4 ∷ w);
  decode_token = λ b w. (gives (codes "token"), w);
  decode_fields = λ b w.
      (gives (record { name = codes "lHostScanList.0"; value = codes "'File','a','/x'" } ∷ []), w);
  read_all = λ b w. (gives (codes "no"), w);
  close_body = λ b w. closed w;
  decode_string = λ text. gives text;
  format_float = λ bits x. [];
  now = λ w. 2000000000;
  debug_log = λ msg response w. w;
}

get-Opened :
    (w : List ℕ) → Opened (λ (v : List ℕ). v) w (gives (record { status = 200; body = 3 }), 3 ∷ w)
unfolding Opened
get-Opened w = refl

do-Opened :
    (w : List ℕ) → Opened (λ (v : List ℕ). v) w (gives (record { status = 500; body = 4 }), 4 ∷ w)
unfolding Opened
do-Opened w = refl

abbrev info : CsdInfo
info = record { hostname = codes "h"; sha256 = []; token = []; ticket = codes "t"; stub = [] }

process_csd-closes_example : (process_csd http info (2 ∷ [])).1 ≡ 2 ∷ []
process_csd-closes_example =
    process_csd-closes http (λ w. w)
      (record {
        get_opens = λ fingerprint url w. get-Opened w;
        do_opens = λ fingerprint req w. do-Opened w;
        token_keeps = λ b w. refl;
        fields_keep = λ b w. refl;
        read_keeps = λ b w. refl;
        log_keeps = λ msg response w. refl;
        close_closes = λ b bs w e. closed-cons b bs w e;
      })
      info (2 ∷ [])

-- A library that never fails, and a stack that has no room.
abbrev library : Library ℕ
library = record {
  new = λ user_agent w. (some 7, suc w);
  free = λ p w. suc w;
  call = λ p c w. (([], 0), suc w);
}

abbrev tun_system : TunSystem ℕ
tun_system = record {
  socketpair = λ w. (gives (3, 4), w);
  ip_info = λ s. (
    gives (record {
      addr = [];
      netmask = [];
      addr6 = [];
      netmask6 = [];
      dns = [];
      domain = [];
      mtu = 1400;
    }),
    s.world,
  );
}

abbrev stack : Stack ℕ
stack = record { new_tun_dialer = λ fd ip w. (breaks (other (codes "no address")), w) }

abbrev enabled : Enabled
enabled = record { debug = false; info = true; error = true }

new_dialer-Leaves_example :
    Leaves library (new_dialer library tun_system stack 501 enabled url [] 0)
new_dialer-Leaves_example = new_dialer-Leaves library tun_system stack 501 enabled url [] 0
