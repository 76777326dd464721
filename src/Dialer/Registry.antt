-- ===== src/Dialer/Registry.antt =====
-- pkg/dialer/dailer.go, with the schemes of openconnect.go and ssh.go; and the SSH dialer of ssh.go.
--
-- What golang.org/x/crypto/ssh and the dialer below answer are parameters.
pub mod Ends
use flakes.Common.{
  ℕ, Bool, true, false, if◌then◌else◌, List, [], ◌∷◌, ◌++◌, Option, none, some, Bytes, codes, Map,
  get, put, join_host_port, ◌⊎◌, inl, inr,
}
use flakes.Netutil.Handles.{Handle, context, upstream, session, Action, opens, uses, closes, does}

-- The functions that are registered, here and in the registry of package proxy.
pub data Maker : Type 0 where
  open_connect ssh_client : Maker
  -- The one that calls a maker with `context.Background()`.
  in_background : Maker → Maker
  other_maker : ℕ → Maker

pub record Registry : Type 0 where
  pub ctx_schemes : Map Maker
  pub proxy_schemes : Map Maker

-- `RegisterContextDialerType`
unfoldable pub register : Bytes → Maker → Registry → Registry
register scheme fn r = record {
  ctx_schemes = put scheme fn r.ctx_schemes;
  proxy_schemes = put scheme (in_background fn) r.proxy_schemes;
}

-- The `init` functions, in the order of their files.
unfoldable pub init : Registry → Registry
unfolding register
init r =
    register (codes "ssh") ssh_client
      (register (codes "gp") open_connect (register (codes "anyconnect") open_connect r))

-- `FromURLContext`: the maker of the scheme, or `none` for the race with `proxy.FromURL`.
unfoldable pub from_url_context : Bytes → Registry → Option Maker
from_url_context scheme r = get scheme r.ctx_schemes

-- The parts of a URL that `SSH` reads.
pub record SshUrl : Type 0 where
  pub username : Bytes
  pub password : Option Bytes
  pub hostname : Bytes
  pub port : Bytes
  pub identity : Bytes

pub data Auth : Type 0 where
  of_password : Bytes → Auth
  of_signer : ℕ → Auth

pub record ClientConfig : Type 0 where
  pub user : Bytes
  pub auth : List Auth

pub data SshError : Type 0 where
  read_failed parse_failed dial_failed client_failed : SshError

-- `os.ReadFile`, `ssh.ParsePrivateKey`, whether the dial connects, and whether `NewClientConn` does.
pub record Answers : Type 0 where
  pub read_file : Bytes → Option Bytes
  pub parse_key : Bytes → Option ℕ
  pub connects : Bytes → Bool
  pub is_client : ClientConfig → Bool

pub data Deed : Type 0 where
  dials : Bytes → Bytes → Deed
  shakes_hands : ClientConfig → Deed
  waits_for_end : Deed

unfoldable pub port_or_default : Bytes → Bytes
port_or_default [] = codes "22"
port_or_default (c ∷ port) = c ∷ port

unfoldable pub password_auth : Option Bytes → List Auth
password_auth none = []
password_auth (some password) = of_password password ∷ []

module _ (answers : Answers) where
  unfoldable pub parsed_identity : Option ℕ → SshError ⊎ List Auth
  parsed_identity none = inl parse_failed
  parsed_identity (some signer) = inr (of_signer signer ∷ [])

  unfoldable pub read_identity : Option Bytes → SshError ⊎ List Auth
  unfolding parsed_identity
  read_identity none = inl read_failed
  read_identity (some text) = parsed_identity (answers.parse_key text)

  unfoldable pub identity_auth : Bytes → SshError ⊎ List Auth
  unfolding read_identity
  identity_auth [] = inr []
  identity_auth (c ∷ filename) = read_identity (answers.read_file (c ∷ filename))

  -- From `NewClientConn` on: the error, if any, and what is done.
  unfoldable pub after_dial : ClientConfig → Option SshError × List (Action Deed)
  after_dial config =
      if answers.is_client config
      then (none, uses upstream ∷ does (shakes_hands config) ∷ does waits_for_end ∷ [])
      else (
        some client_failed,
        uses upstream ∷ does (shakes_hands config) ∷ closes upstream ∷ closes context ∷ [],
      )

  unfoldable pub after_auth : SshUrl → SshError ⊎ List Auth → Option SshError × List (Action Deed)
  unfolding after_dial password_auth port_or_default
  after_auth u (inl err) = (some err, [])
  after_auth u (inr auth) =
      let addr = join_host_port u.hostname (port_or_default u.port) in
      let rest =
        after_dial (record { user = u.username; auth = password_auth u.password ++ auth }) in
      if answers.connects addr
      then (rest.0, opens context ∷ does (dials (codes "tcp") addr) ∷ opens upstream ∷ rest.1)
      else (some dial_failed, opens context ∷ does (dials (codes "tcp") addr) ∷ closes context ∷ [])

  -- `SSH`: where it succeeds, the client has the connection, and its end cancels the context.
  unfoldable pub ssh : SshUrl → Option SshError × List (Action Deed)
  unfolding after_auth identity_auth
  ssh u = after_auth u (identity_auth u.identity)
