-- ===== src/Sshproxy/Channels.antt =====
-- What a connection of the SSH proxy opens is closed, and how its channels are answered.
use flakes.Common.{
  ◌≡◌, Bool, true, false, List, [], ◌∷◌, some, Bytes, codes, bytes_eq, inl, inr, ◌⊎◌, ◌&&◌,
}
use flakes.Netutil.Handles.{Action, does, settle}
use flakes.Sshproxy.{Answers, joins, DirectTcpIpPayload, NewChannel, Deed, target_addr}

-- Whether a channel and its target are joined.
unfoldable pub has_join : List (Action Deed) → Bool
has_join [] = false
has_join (does (joins a b) ∷ actions) = true
has_join (a ∷ actions) = has_join actions

unfoldable reaches : Answers → Bytes ⊎ DirectTcpIpPayload → Bool
reaches answers (inl err) = false
reaches answers (inr payload) = answers.connects (codes "tcp") (target_addr payload)

-- A channel reaches its target where its type is direct-tcpip, its data are a payload, it is accepted,
-- and the dialer connects to the host and the port of the payload.
unfoldable pub is_reached : Answers → NewChannel → Bool
unfolding reaches
is_reached answers c =
    bytes_eq c.channel_type (codes "direct-tcpip")
    && (c.is_accepted && reaches answers (answers.unmarshal c.extra_data))

IsServed : Answers → NewChannel → List (Action Deed) → Type 0
IsServed answers c t = (settle [] t ≡ some []) × (has_join t ≡ is_reached answers c)
