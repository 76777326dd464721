-- ===== src/Tests/Packets.antt =====
-- pkg/stackutil/endpoint.go on a few packets.
use flakes.Common.{
  ◌+◌, ◌≡◌, ◌≤◌, refl, [], ◌∷◌, ◌++◌, Bytes, map, length, All, arith, ◌==◌, if◌then◌else◌, List,
}
use flakes.Stackutil.Endpoint.{
  Packet, Version, ipv4, ipv6, unknown, ended, failed, read_packet_data, short, read_from, write_to,
}
use flakes.Stackutil.Endpoint.Packets.{
  Reads, payload, read_packet_data-Reads, keep, total, packets_of, read_from-packets_of,
  read_from-write_to,
}
use mathlib.Core.Option.{some}

-- The version in the first byte of these packets.
abbrev version : Bytes → Version
version [] = unknown
version (b ∷ p) = if b == 4 then ipv4 else if b == 6 then ipv6 else unknown

abbrev packet : Packet
packet = record { offset = 2; views = (9 ∷ []) ∷ (9 ∷ 4 ∷ []) ∷ [] ∷ (1 ∷ 2 ∷ []) ∷ [] }

read_packet_data_lem : read_packet_data 2 (some packet) ≡ short (4 ∷ [])
unfolding read_packet_data
read_packet_data_lem = refl

read_packet_data-Reads_example : Reads 2 (payload packet) (read_packet_data 2 (some packet))
read_packet_data-Reads_example = read_packet_data-Reads 2 packet

abbrev reads : List Bytes
reads = (4 ∷ 1 ∷ []) ∷ [] ∷ (7 ∷ []) ∷ []

-- The read that ends with an error.
abbrev last_read : Bytes
last_read = 6 ∷ []

read_from-packets_of_example :
    read_from version 0 reads last_read (failed 5) []
    ≡ ((0 + total reads + length last_read, failed 5), [] ++ packets_of version reads)
read_from-packets_of_example = read_from-packets_of version 0 reads last_read (failed 5) []

fits_lem : All (λ (pkt : Packet). length (payload pkt) ≤ 1400) (packet ∷ packet ∷ [])
unfolding payload
fits_lem = (omega arith, (omega arith, tt))

read_from-write_to_example :
    let sent = write_to keep 1400 0 (packet ∷ packet ∷ []) [] in
    (sent.0.1 ≡ ended)
    × (read_from version 0 sent.1 [] ended []
        ≡ (sent.0, [] ++ packets_of version (map payload (packet ∷ packet ∷ []))))
read_from-write_to_example = read_from-write_to version 1400 (packet ∷ packet ∷ []) [] fits_lem
