-- ===== src/Dialer/Registry/Ends.antt =====
-- The SSH dialer leaves nothing open where it fails.
use flakes.Common.{
  ◌≡◌, refl, Bool, true, false, List, [], ◌∷◌, ◌++◌, Option, none, some, ◌⊎◌, inl, inr,
  join_host_port,
}
use flakes.Netutil.Handles.{Handle, context, upstream, settle, is_open, close, same}
use flakes.Dialer.Registry.{
  SshUrl, Auth, SshError, Answers, password_auth, port_or_default, identity_auth, after_dial,
  after_auth, ssh,
}

-- What is open behind the call.
left_open : Option SshError → List Handle
left_open none = upstream ∷ context ∷ []
left_open (some err) = []

client-settles :
    (answers : Answers) (u : SshUrl) (auth : List Auth) (connected is_client : Bool)
    → answers.connects (join_host_port u.hostname (port_or_default u.port)) ≡ connected
    → answers.is_client (record { user = u.username; auth = password_auth u.password ++ auth })
      ≡ is_client
    → settle [] (after_auth answers u (inr auth)).1
      ≡ some (left_open (after_auth answers u (inr auth)).0)
unfolding after_auth after_dial left_open settle is_open close same
client-settles answers u auth false is_client e f = rw (after_auth, e) refl
client-settles answers u auth true true e f = rw (after_auth, e, after_dial, f) refl
client-settles answers u auth true false e f = rw (after_auth, e, after_dial, f) refl

auth-settles :
    (answers : Answers) (u : SshUrl) (auth : SshError ⊎ List Auth)
    → settle [] (after_auth answers u auth).1 ≡ some (left_open (after_auth answers u auth).0)
unfolding after_auth left_open settle
auth-settles answers u (inl err) = refl
auth-settles answers u (inr auth) = client-settles answers u auth _ _ refl refl

-- Where `SSH` fails, at whichever step, the connection that it has made is closed and its context
-- cancelled; where it succeeds, both are left to the client, and are not closed.
ssh-settles :
    (answers : Answers) (u : SshUrl)
    → settle [] (ssh answers u).1 ≡ some (left_open (ssh answers u).0)
unfolding ssh
ssh-settles answers u = auth-settles answers u (identity_auth answers u.identity)
