-- ===== src/Stackutil/Endpoint/Packets.antt =====
-- What a link's packets become on the stream, and back.
use flakes.Common.{
  ℕ, zero, suc, ◌+◌, ◌-◌, ◌≤◌, ◌<◌, ltb, leb, ◌≡◌, refl, sym, ◌∙◌, ap, List, [], ◌∷◌, ◌++◌, Option,
  none, some, Bytes, length, drop, ◌⊎◌, length-append, append_assoc, append-nil, arith, All, map,
  Bool-cases, inl, inr, leb→le, ltb→lt, drop_nil,
}
use flakes.Stackutil.Endpoint.{
  Packet, Version, ipv4, ipv6, unknown, Read, short, got, read_views, read_packet_data, End, ended,
  written, write_to, Injected, inject, write_packet_data, read_from,
}

unfoldable pub concat : List Bytes → Bytes
concat [] = []
concat (s ∷ views) = s ++ concat views

-- The bytes of a packet.
unfoldable pub payload : Packet → Bytes
unfolding concat
payload pkt = drop pkt.offset (concat pkt.views)

drop-append_long : (o : ℕ) (s t : Bytes) → length s ≤ o → drop o (s ++ t) ≡ drop (o - length s) t
drop-append_long o [] t h = ap (λ (k : ℕ). drop k t) (omega arith)
drop-append_long zero (c ∷ s) t h = absurd (omega arith)
drop-append_long (suc o) (c ∷ s) t h =
    drop-append_long o s t (omega arith) ∙ ap (λ (k : ℕ). drop k t) (omega arith)

drop-append_short : (o : ℕ) (s t : Bytes) → o ≤ length s → drop o (s ++ t) ≡ drop o s ++ t
drop-append_short zero [] t h = refl
drop-append_short (suc o) [] t h = absurd (omega arith)
drop-append_short zero (c ∷ s) t h = refl
drop-append_short (suc o) (c ∷ s) t h = drop-append_short o s t (omega arith)

-- A read of the bytes `all` into a buffer of `cap` bytes: all of them where they fit, else the
-- error, with a first part of them in the buffer.
pub Reads : ℕ → Bytes → Read → Type 0
Reads cap all r =
    ((length all ≤ cap) × (r ≡ got all))
    ⊎ ((cap < length all)
        × ((pre : Bytes) × (rest : Bytes) × (r ≡ short pre)
            × (pre ++ rest ≡ all)
            × (length pre ≤ cap)))

full-Reads : (cap : ℕ) (buf : Bytes) → length buf ≤ cap → Reads cap buf (got buf)
unfolding Reads
full-Reads cap buf fits = inl (fits, refl)

over-Reads :
    (cap : ℕ) (buf rest : Bytes)
    → length buf ≤ cap
    → cap < length (buf ++ rest)
    → Reads cap (buf ++ rest) (short buf)
unfolding Reads
over-Reads cap buf rest fits over = inr (over, (buf, rest, refl, refl, fits))

read_views-Reads :
    (cap o : ℕ) (buf : Bytes) (views : List Bytes)
    → length buf ≤ cap
    → Reads cap (buf ++ drop o (concat views)) (read_views cap o buf views)
unfolding read_views concat
read_views-Reads cap o buf [] fits = rw (drop_nil o, append-nil buf) (full-Reads cap buf fits)
read_views-Reads cap o buf (s ∷ views) fits = elim (Bool-cases (leb (length s) o)) [
  | inl skips ↦
      rw (skips, drop-append_long o s (concat views) (leb→le _ _ skips))
        (read_views-Reads cap (o - length s) buf views fits)
  | inr takes ↦
      rw (takes, drop-append_short o s (concat views) (ground (arith, takes)))
        (elim (Bool-cases (ltb cap (length buf + length (drop o s)))) [
          | inl large ↦ rw (large) (
              over-Reads cap buf (drop o s ++ concat views) fits (
                rw
                  (
                    length-append buf (drop o s ++ concat views),
                    length-append (drop o s) (concat views),
                  )
                  (ground (arith, ltb→lt _ _ large))))
          | inr small ↦
              rw (small, sym (append_assoc buf (drop o s) (concat views)))
                (read_views-Reads cap 0 (buf ++ drop o s) views
                  (rw (length-append buf (drop o s)) (ground (arith, small))))
        ])
]

-- `readPacketData` puts the whole payload of a packet, behind its offset and over all of its
-- views, into a buffer where it fits, and is an error else, with a first part in the buffer.
pub read_packet_data-Reads :
    (cap : ℕ) (pkt : Packet) → Reads cap (payload pkt) (read_packet_data cap (some pkt))
unfolding payload read_packet_data
read_packet_data-Reads cap pkt = read_views-Reads cap pkt.offset [] pkt.views (omega arith)

unfoldable pub total : List Bytes → ℕ
total [] = 0
total (b ∷ bs) = length b + total bs

-- A stream that takes every packet, and keeps them in their order.
abbrev pub keep : Bytes → List Bytes → (ℕ × Option ℕ) × List Bytes
keep b sent = ((length b, none), sent ++ b ∷ [])

read-fits :
    (mtu : ℕ) (pkt : Packet)
    → length (payload pkt) ≤ mtu
    → read_packet_data mtu (some pkt) ≡ got (payload pkt)
unfolding Reads
read-fits mtu pkt fits = elim (read_packet_data-Reads mtu pkt) [
  | inl (fits', e) ↦ e
  | inr (over, rest) ↦ absurd (omega arith)
]

write_to-payload :
    (mtu n : ℕ) (pkts : List Packet) (sent : List Bytes)
    → All (λ (pkt : Packet). length (payload pkt) ≤ mtu) pkts
    → write_to keep mtu n pkts sent
      ≡ ((n + total (map payload pkts), ended), sent ++ map payload pkts)
unfolding write_to written total
write_to-payload mtu n [] sent fit =
    rw (append-nil sent) (ap (λ (k : ℕ). ((k, ended), sent)) (omega arith))
write_to-payload mtu n (pkt ∷ pkts) sent (fits, fit) =
    rw
      (
        write_to,
        read-fits mtu pkt fits,
        write_to-payload mtu (n + length (payload pkt)) pkts (sent ++ payload pkt ∷ []) fit,
        append_assoc sent (payload pkt ∷ []) (map payload pkts),
      )
      (ap (λ (k : ℕ). ((k, ended), sent ++ payload pkt ∷ map payload pkts)) (omega arith))

module _ (version : Bytes → Version) where
  -- The packets of a version that is known, with it.
  unfoldable pub versioned : Version → Bytes → Injected
  versioned ipv4 p = (ipv4, p) ∷ []
  versioned ipv6 p = (ipv6, p) ∷ []
  versioned unknown p = []

  unfoldable pub packets_of : List Bytes → Injected
  unfolding versioned
  packets_of [] = []
  packets_of ([] ∷ reads) = packets_of reads
  packets_of ((b ∷ p) ∷ reads) = versioned (version (b ∷ p)) (b ∷ p) ++ packets_of reads

  inject-versioned :
      (v : Version) (p : Bytes) (link : Injected)
      → (inject version v p link).1 ≡ link ++ versioned v p
  unfolding inject versioned
  inject-versioned ipv4 p link = refl
  inject-versioned ipv6 p link = refl
  inject-versioned unknown p link = sym (append-nil link)

  -- `ReadFrom` gives the link exactly the reads without an error that are packets of a known
  -- version, in their order. It counts the bytes of all reads, also those that came with the error
  -- or the end, which it does not give to the link.
  pub read_from-packets_of :
      (n : ℕ) (reads : List Bytes) (last : Bytes) (end : End) (link : Injected)
      → read_from version n reads last end link
        ≡ ((n + total reads + length last, end), link ++ packets_of reads)
  unfolding read_from write_packet_data packets_of total
  read_from-packets_of n [] last end link =
      rw (append-nil link) (ap (λ (k : ℕ). ((k, end), link)) (omega arith))
  read_from-packets_of n ([] ∷ reads) last end link =
      read_from-packets_of (n + 0) reads last end link
      ∙ ap (λ (k : ℕ). ((k, end), link ++ packets_of reads)) (omega arith)
  read_from-packets_of n ((b ∷ p) ∷ reads) last end link =
      rw
        (
          inject-versioned (version (b ∷ p)) (b ∷ p) link,
          read_from-packets_of (n + length (b ∷ p)) reads last end
              (link ++ versioned (version (b ∷ p)) (b ∷ p)),
          append_assoc link (versioned (version (b ∷ p)) (b ∷ p)) (packets_of reads),
        )
        (ap
          (λ (k : ℕ). ((k, end), link ++ (versioned (version (b ∷ p)) (b ∷ p) ++ packets_of reads)))
          (omega arith))

  -- Packets that fit into the MTU cross a stream that takes and gives each of them whole: what
  -- `WriteTo` writes for them, `ReadFrom` at the other end gives to its link, each payload once, in
  -- their order and with its version, except those that are empty or of no known version.
  pub read_from-write_to :
      (mtu : ℕ) (pkts : List Packet) (link : Injected)
      → All (λ (pkt : Packet). length (payload pkt) ≤ mtu) pkts
      → let sent = write_to keep mtu 0 pkts [] in
        (sent.0.1 ≡ ended)
        × (read_from version 0 sent.1 [] ended link
            ≡ (sent.0, link ++ packets_of (map payload pkts)))
  read_from-write_to mtu pkts link fit = rw (write_to-payload mtu 0 pkts [] fit) (
    refl,
    read_from-packets_of 0 (map payload pkts) [] ended link
        ∙ ap (λ (k : ℕ). ((k, ended), link ++ packets_of (map payload pkts))) (omega arith),
  )
