-- ===== src/Stackutil/Endpoint.antt =====
-- pkg/stackutil/endpoint.go: packets between a link of the user-space stack and a stream.
--
-- The header's version and what the stream takes and gives are parameters. A stream's reads are the
-- list of what they give, up to the read with an error.
pub mod Packets
use flakes.Common.{
  ℕ, ◌+◌, ◌-◌, ltb, leb, if◌then◌else◌, List, [], ◌∷◌, ◌++◌, Option, none, some, Bytes, Bool, true,
  false, length, drop,
}

-- A packet of the link: the offset of `AsViewList`, and the bytes of its views.
pub record Packet : Type 0 where
  pub offset : ℕ
  pub views : List Bytes

-- `header.IPVersion`
pub data Version : Type 0 where
  ipv4 ipv6 unknown : Version

-- What a read gives, where `short` is `io.ErrShortBuffer`.
pub data Read : Type 0 where
  eof : Read
  short got : Bytes → Read

-- The loop of `readPacketData` over the views, with what is in the buffer of `cap` bytes.
unfoldable pub read_views : ℕ → ℕ → Bytes → List Bytes → Read
read_views cap offset buf [] = got buf
read_views cap offset buf (s ∷ views) =
    let skipped = read_views cap (offset - length s) buf views in
    let s' = drop offset s in
    let taken = read_views cap 0 (buf ++ s') views in
    if leb (length s) offset
    then skipped
    else if ltb cap (length buf + length s')
    then short buf
    else taken

-- `readPacketData`, where `none` is the nil packet of a closed link.
unfoldable pub read_packet_data : ℕ → Option Packet → Read
unfolding read_views
read_packet_data cap none = eof
read_packet_data cap (some pkt) = read_views cap pkt.offset [] pkt.views

-- How a copy ends: at the end of its source, at a packet that is too large, or with the error of
-- the stream, by its number.
pub data End : Type 0 where
  ended short_buffer : End
  failed : ℕ → End

module _ {ℓ} {W : Type ℓ} (write : Bytes → W → (ℕ × Option ℕ) × W) where
  -- The part of `WriteTo` behind the read of a packet, before the next round.
  unfoldable pub written : ℕ → (ℕ × Option ℕ) × W → (ℕ → W → (ℕ × End) × W) → (ℕ × End) × W
  written n ((count, none), w) next = next (n + count) w
  written n ((count, some e), w) next = ((n + count, failed e), w)

  -- `WriteTo`, for the packets that the link gives until it is closed.
  unfoldable pub write_to : ℕ → ℕ → List Packet → W → (ℕ × End) × W
  unfolding written read_packet_data
  write_to mtu n [] w = ((n, ended), w)
  write_to mtu n (pkt ∷ pkts) w = elim (read_packet_data mtu (some pkt)) [
    | eof ↦ ((n, ended), w)
    | short b ↦ ((n, short_buffer), w)
    | got b ↦ written n (write b w) (λ n' w'. write_to mtu n' pkts w')
  ]

-- The packets that the link was given, the first one first.
abbrev pub Injected : Type 0
Injected = List (Version × Bytes)

module _ (version : Bytes → Version) where
  -- `InjectInbound` at the protocol of a version.
  unfoldable pub inject : Version → Bytes → Injected → ℕ × Injected
  inject ipv4 p link = (length p, link ++ (ipv4, p) ∷ [])
  inject ipv6 p link = (length p, link ++ (ipv6, p) ∷ [])
  inject unknown p link = (0, link)

  -- `writePacketData`
  unfoldable pub write_packet_data : Bytes → Injected → ℕ × Injected
  unfolding inject
  write_packet_data [] link = (0, link)
  write_packet_data (b ∷ p) link = inject (version (b ∷ p)) (b ∷ p) link

  -- `ReadFrom`, for the reads without an error and then the last one.
  unfoldable pub read_from : ℕ → List Bytes → Bytes → End → Injected → (ℕ × End) × Injected
  unfolding write_packet_data
  read_from n [] last end link = ((n + length last, end), link)
  read_from n (p ∷ reads) last end link =
      read_from (n + length p) reads last end (write_packet_data p link).1
