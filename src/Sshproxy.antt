-- ===== src/Sshproxy.antt =====
-- pkg/sshproxy/server.go: a proxy for the direct-tcpip channels of SSH.
--
-- What golang.org/x/crypto/ssh and the dialer answer are parameters, also the order in which the
-- goroutines run: each one's actions are given apart.
pub mod Channels
pub mod HostKey
use flakes.Common.{
  ℕ, Bool, true, false, if◌then◌else◌, List, [], ◌∷◌, ◌++◌, Option, none, some, Bytes, codes,
  bytes_eq, decimal, map, ◌⊎◌, inl, inr,
}
use flakes.Netutil.Handles.{
  Handle, context, upstream, channel, session, Action, opens, uses, closes, does, defer,
}

pub record DirectTcpIpPayload : Type 0 where
  pub host_to_connect : Bytes
  pub port_to_connect : ℕ
  pub originator_ip : Bytes
  pub originator_port : ℕ

-- `ssh.NewChannel`: what it says, and whether `Accept` gives a channel.
pub record NewChannel : Type 0 where
  pub channel_type : Bytes
  pub extra_data : Bytes
  pub is_accepted : Bool

pub data RejectionReason : Type 0 where
  unknown_channel_type connection_failed : RejectionReason

pub data Deed : Type 0 where
  rejects : RejectionReason → Bytes → Deed
  accepts : Deed
  discards_requests : Deed
  dials : Bytes → Bytes → Deed
  joins : Handle → Handle → Deed

-- `ssh.Unmarshal` of a payload, whether the dialer connects, and the verb `%q`.
pub record Answers : Type 0 where
  pub unmarshal : Bytes → Bytes ⊎ DirectTcpIpPayload
  pub connects : Bytes → Bytes → Bool
  pub quoted : Bytes → Bytes

-- `netutil.Join`, which closes both when it returns.
unfoldable pub join : Handle → Handle → List (Action Deed)
join a b = uses a ∷ uses b ∷ does (joins a b) ∷ closes a ∷ closes b ∷ []

-- `fmt.Sprintf("%s:%d", …)`
unfoldable pub target_addr : DirectTcpIpPayload → Bytes
target_addr payload = payload.host_to_connect ++ codes ":" ++ decimal payload.port_to_connect

module _ (answers : Answers) where
  -- What follows `Accept`.
  unfoldable pub after_accept : DirectTcpIpPayload → List (Action Deed)
  unfolding defer join target_addr
  after_accept payload =
      opens context
      ∷ defer (closes context) (
          does (dials (codes "tcp") (target_addr payload))
          ∷ (if answers.connects (codes "tcp") (target_addr payload)
              then opens upstream
                ∷ defer (closes upstream) (does discards_requests ∷ join channel upstream)
              else []))

  -- `handleDirectTCPIP`
  unfoldable pub handle_direct_tcpip : NewChannel → List (Action Deed)
  unfolding after_accept defer
  handle_direct_tcpip new_chan = elim (answers.unmarshal new_chan.extra_data) [
    | inl err ↦ does (rejects connection_failed err) ∷ []
    | inr payload ↦
        if new_chan.is_accepted
        then does accepts ∷ opens channel ∷ defer (closes channel) (after_accept payload)
        else []
  ]

  -- A channel that comes in: its answer in the loop, or in a goroutine of its own.
  unfoldable pub handle_channel : NewChannel → List (Action Deed)
  unfolding handle_direct_tcpip
  handle_channel new_chan =
      if bytes_eq new_chan.channel_type (codes "direct-tcpip")
      then handle_direct_tcpip new_chan
      else does (
          rejects unknown_channel_type
            (codes "unsupported channel type " ++ answers.quoted new_chan.channel_type))
        ∷ []

  -- `handleConn`: the actions on the connection, and those for each channel. `is_ssh` is whether
  -- `NewServerConn` gives a connection, which is then closed instead of the one below it.
  unfoldable pub handle_conn :
      Bool → List NewChannel → List (Action Deed) × List (List (Action Deed))
  unfolding handle_channel defer
  handle_conn is_ssh new_chans =
      if is_ssh
      then (
        opens session ∷ defer (closes session) (does discards_requests ∷ uses session ∷ []),
        map handle_channel new_chans,
      )
      else (opens session ∷ closes session ∷ [], [])
