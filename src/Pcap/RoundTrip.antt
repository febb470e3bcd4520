-- ===== src/Pcap/RoundTrip.antt =====
-- Capture files that src/lib/pcap.rs writes are read back.
use mathlib.Core.Path.{subst}
use mayara_server.Common.{
  ℕ, zero, suc, ◌+◌, ◌-◌, ◌*◌, ◌/◌, ◌^◌, ◌<◌, ◌≡◌, refl, sym, ap, ◌∙◌, arith, true, false, List, [],
  ◌∷◌, ◌++◌, Option, none, some, ok, length, drop, take, get_or, length-append, ltb, ◌==◌,
}
use mayara_server.Bytes.{All, to_le_bytes, from_le_bytes, from_be_bytes, slice}
use mayara_server.Bytes.Laws.{from-to_le_bytes, take-length_append, drop-length_append}
use mayara_server.Pcap.{
  PcapPacket, parse_udp_packet, byte_order, read_u32, since, first_or, parse_records, parse_bytes,
  be_16, be_bytes_16, frame_bytes, stamp, record_bytes, records_bytes, file_bytes,
}

-- A packet that fits: four octets in an address, a port and a datagram within 16 bits, and seconds
-- within 32.
pub record PacketFits (p : PcapPacket) : Type 0 where
  pub src_ip_fits : length p.src_ip ≡ 4
  pub dst_ip_fits : length p.dst_ip ≡ 4
  pub src_port_fits : p.src_port < 2 ^ 16
  pub dst_port_fits : p.dst_port < 2 ^ 16
  pub payload_fits : length p.payload < 2 ^ 16 - 28
  pub seconds_fit : (stamp p.timestamp).0 < 2 ^ 32

take_all {ℓ} : {A : Type ℓ} (xs : List A) → take (length xs) xs ≡ xs
take_all [] = refl
take_all (x ∷ xs) = ap (λ ys. x ∷ ys) (take_all xs)

parse_parts :
    (bytes : List ℕ) (t : ℕ) (udp : List ℕ) (n : ℕ)
    → ltb (length bytes) 42 ≡ false
    → be_16 12 bytes ≡ 0x0800
    → ltb (length (drop 14 bytes)) 20 ≡ false
    → get_or (drop 14 bytes) 0 0 ≡ 0x45
    → get_or (drop 14 bytes) 9 0 ≡ 17
    → be_16 6 (drop 14 bytes) ≡ 0
    → drop 20 (drop 14 bytes) ≡ udp
    → ltb (length udp) 8 ≡ false
    → be_16 4 udp ≡ n
    → ltb n 8 ≡ false
    → ltb (length udp) n ≡ false
    → parse_udp_packet bytes t
      ≡ some (record {
        timestamp = t;
        src_ip = slice 12 4 (drop 14 bytes);
        src_port = be_16 0 udp;
        dst_ip = slice 16 4 (drop 14 bytes);
        dst_port = be_16 2 udp;
        payload = take (n - 8) (drop 8 udp);
      })
unfolding parse_udp_packet
parse_parts bytes t udp n long ether ip_long version protocol whole udp_is udp_long len lo hi =
    rw long (
      rw ether (
        rw ip_long (
          rw version (
            rw ip_long
              (rw protocol (rw whole (rw udp_is (rw udp_long (rw len (rw lo (rw hi refl)))))))))))

be_16-be_bytes : (n : ℕ) (rest : List ℕ) → n < 2 ^ 16 → be_16 0 (be_bytes_16 n ++ rest) ≡ n
unfolding from_be_bytes
be_16-be_bytes n rest h = omega arith

parse_octets :
    (t a b c d e f g h src dst t' : ℕ) (payload : List ℕ)
    → src < 2 ^ 16
    → dst < 2 ^ 16
    → length payload < 2 ^ 16 - 28
    → let p : PcapPacket = record {
      timestamp = t;
      src_ip = a ∷ b ∷ c ∷ d ∷ [];
      src_port = src;
      dst_ip = e ∷ f ∷ g ∷ h ∷ [];
      dst_port = dst;
      payload = payload;
    } in
      parse_udp_packet (frame_bytes p) t' ≡ some (record p { timestamp = t' })
unfolding frame_bytes from_be_bytes
parse_octets t a b c d e f g h src dst t' payload hs hd hp =
    let p : PcapPacket = record {
      timestamp = t;
      src_ip = a ∷ b ∷ c ∷ d ∷ [];
      src_port = src;
      dst_ip = e ∷ f ∷ g ∷ h ∷ [];
      dst_port = dst;
      payload = payload;
    } in
    let udp =
      be_bytes_16 src
      ++ (be_bytes_16 dst ++ (be_bytes_16 (8 + length payload) ++ (0 ∷ 0 ∷ payload))) in
    let less : 8 + length payload - 8 ≡ length payload = omega arith in
    parse_parts (frame_bytes p) t' udp (8 + length payload) (ground arith) refl (ground arith) refl
      refl refl refl (ground arith)
      (be_16-be_bytes (8 + length payload) (0 ∷ 0 ∷ payload) (omega arith)) (ground arith)
      (ground arith)
    ∙ λ i. some (record {
      timestamp = t';
      src_ip = a ∷ b ∷ c ∷ d ∷ [];
      src_port = be_16-be_bytes src (be_bytes_16 dst) hs i;
      dst_ip = e ∷ f ∷ g ∷ h ∷ [];
      dst_port = be_16-be_bytes dst [] hd i;
      payload = (ap (λ (k : ℕ). take k payload) less ∙ take_all payload) i;
    })

-- A list of four is four elements.
abbrev IsFour : List ℕ → Type 0
IsFour xs = (a : ℕ) × (b : ℕ) × (c : ℕ) × (d : ℕ) × (xs ≡ a ∷ b ∷ c ∷ d ∷ [])

length-IsFour : (xs : List ℕ) → length xs ≡ 4 → IsFour xs
length-IsFour (a ∷ b ∷ c ∷ d ∷ []) h = (a, b, c, d, refl)
length-IsFour [] h = absurd (omega arith)
length-IsFour (a ∷ []) h = absurd (omega arith)
length-IsFour (a ∷ b ∷ []) h = absurd (omega arith)
length-IsFour (a ∷ b ∷ c ∷ []) h = absurd (omega arith)
length-IsFour (a ∷ b ∷ c ∷ d ∷ e ∷ xs) h = absurd (omega arith)

parse_udp_packet-frame :
    (p : PcapPacket) (t : ℕ)
    → PacketFits p
    → parse_udp_packet (frame_bytes p) t ≡ some (record p { timestamp = t })
parse_udp_packet-frame p t fits =
    let (a, b, c, d, src) = length-IsFour p.src_ip fits.src_ip_fits in
    let (e, f, g, h, dst) = length-IsFour p.dst_ip fits.dst_ip_fits in
    subst
      (λ (ips : List ℕ × List ℕ).
        parse_udp_packet (frame_bytes (record p { src_ip = ips.0; dst_ip = ips.1 })) t
        ≡ some (record p { timestamp = t; src_ip = ips.0; dst_ip = ips.1 }))
      (λ i. (sym src i, sym dst i))
      (parse_octets p.timestamp a b c d e f g h p.src_port p.dst_port t p.payload fits.src_port_fits
        fits.dst_port_fits fits.payload_fits)

frame-length : (p : PcapPacket) → PacketFits p → length (frame_bytes p) ≡ 42 + length p.payload
unfolding frame_bytes
frame-length p fits =
    let ports =
      be_bytes_16 p.src_port
      ++ (be_bytes_16 p.dst_port ++ (be_bytes_16 (8 + length p.payload) ++ (0 ∷ 0 ∷ p.payload))) in
    omega (
      arith,
      length-append p.src_ip (p.dst_ip ++ ports),
      length-append p.dst_ip ports,
      fits.src_ip_fits,
      fits.dst_ip_fits,
    )

record-stamp :
    (p : PcapPacket) (rest : List ℕ)
    → PacketFits p
    → (read_u32 false 0 (record_bytes p ++ rest) ≡ (stamp p.timestamp).0)
      × (read_u32 false 4 (record_bytes p ++ rest) ≡ (stamp p.timestamp).1)
unfolding record_bytes to_le_bytes from_le_bytes
record-stamp p rest fits = (
  from-to_le_bytes 4 (stamp p.timestamp).0 fits.seconds_fit,
  from-to_le_bytes 4 (stamp p.timestamp).1 (omega arith),
)

record-incl_len :
    (p : PcapPacket) (rest : List ℕ)
    → PacketFits p
    → read_u32 false 8 (record_bytes p ++ rest) ≡ length (frame_bytes p)
unfolding record_bytes to_le_bytes from_le_bytes
record-incl_len p rest fits =
    from-to_le_bytes 4 (42 + length p.payload) (omega (arith, fits.payload_fits))
    ∙ sym (frame-length p fits)

drop_record :
    (p : PcapPacket) (rest : List ℕ) → drop 16 (record_bytes p ++ rest) ≡ frame_bytes p ++ rest
unfolding record_bytes to_le_bytes
drop_record p rest = refl

record-length :
    (p : PcapPacket) (rest : List ℕ)
    → length (record_bytes p ++ rest) ≡ 16 + length (frame_bytes p ++ rest)
unfolding record_bytes to_le_bytes
record-length p rest = omega arith

-- The packets with their times since the moment `start`: a file keeps whole microseconds, and a
-- moment before the start counts as the start.
unfoldable pub stamped_from : ℕ → List PcapPacket → List PcapPacket
stamped_from start [] = []
stamped_from start (p ∷ ps) =
    record p { timestamp = (p.timestamp / 1000 - start / 1000) * 1000 } ∷ stamped_from start ps

-- The start is the time of the first packet.
unfoldable pub stamped : List PcapPacket → List PcapPacket
stamped [] = []
stamped (p ∷ ps) = stamped_from p.timestamp (p ∷ ps)

since-micros :
    (start t : ℕ) → since 1000000 (stamp start) (stamp t) ≡ (t / 1000 - start / 1000) * 1000
since-micros start t = omega arith

-- What the loop has kept of the start.
abbrev start_of : Option ℕ → ℕ → ℕ
start_of none t = t
start_of (some start) t = start

abbrev stamp_of : Option ℕ → Option (ℕ × ℕ)
stamp_of none = none
stamp_of (some start) = some (stamp start)

unfoldable stamped_after : Option ℕ → List PcapPacket → List PcapPacket
stamped_after first [] = []
stamped_after first (p ∷ ps) = stamped_from (start_of first p.timestamp) (p ∷ ps)

stamped_after-none : (ps : List PcapPacket) → stamped_after none ps ≡ stamped ps
unfolding stamped_after stamped
stamped_after-none [] = refl
stamped_after-none (p ∷ ps) = refl

stamped_after-some :
    (start : ℕ) (ps : List PcapPacket) → stamped_after (some start) ps ≡ stamped_from start ps
unfolding stamped_after stamped_from
stamped_after-some start [] = refl
stamped_after-some start (p ∷ ps) = refl

first_or-start :
    (first : Option ℕ) (t : ℕ) → first_or (stamp_of first) (stamp t) ≡ stamp (start_of first t)
first_or-start none t = refl
first_or-start (some start) t = refl

parse_records-records :
    (fuel : ℕ) (first : Option ℕ) (ps : List PcapPacket)
    → All PacketFits ps
    → length (records_bytes ps) < fuel
    → parse_records fuel false 1000000 (stamp_of first) (records_bytes ps)
      ≡ ok (stamped_after first ps)
unfolding parse_records records_bytes stamped_after stamped_from
parse_records-records zero first ps fits enough = absurd (omega arith)
parse_records-records (suc fuel) first [] fits enough = refl
parse_records-records (suc fuel) first (p ∷ ps) fits enough =
    let rest = records_bytes ps in
    let bytes = record_bytes p ++ rest in
    let (seconds, micros) = record-stamp p rest fits.0 in
    let long : ltb (length bytes) 16 ≡ false = ground (arith, record-length p rest) in
    let whole : ltb (length (frame_bytes p ++ rest)) (length (frame_bytes p)) ≡ false =
      ground (arith, length-append (frame_bytes p) rest) in
    let start = start_of first p.timestamp in
    let later =
      parse_records-records fuel (some start) ps fits.1
        (omega (arith, enough, record-length p rest, length-append (frame_bytes p) rest))
      ∙ ap (λ (xs : List PcapPacket). ok xs) (stamped_after-some start ps) in
    rw long (
      rw (record-incl_len p rest fits.0) (
        rw (drop_record p rest) (
          rw whole (
            rw (take-length_append (frame_bytes p) rest) (
              rw (parse_udp_packet-frame p 0 fits.0) (
                rw (record-incl_len p rest fits.0) (
                  rw (drop_record p rest) (
                    rw (drop-length_append (frame_bytes p) rest) (
                      rw seconds (
                        rw micros (
                          rw (first_or-start first p.timestamp)
                            (rw later (rw (since-micros start p.timestamp) refl)))))))))))))

file-length : (ps : List PcapPacket) → length (file_bytes ps) ≡ 24 + length (records_bytes ps)
unfolding file_bytes to_le_bytes
file-length ps = omega arith

file-order :
    (ps : List PcapPacket)
    → byte_order (from_le_bytes (slice 0 4 (file_bytes ps))) ≡ some (false, false)
unfolding byte_order file_bytes to_le_bytes from_le_bytes
file-order ps = refl

file-link : (ps : List PcapPacket) → (read_u32 false 20 (file_bytes ps) == 1) ≡ true
unfolding file_bytes to_le_bytes from_le_bytes
file-link ps = refl

drop_file : (ps : List PcapPacket) → drop 24 (file_bytes ps) ≡ records_bytes ps
unfolding file_bytes to_le_bytes
drop_file ps = refl

-- A capture file that is written from packets that fit is parsed to these packets in order, with
-- their addresses, ports and payloads; their times are since the first packet's, in steps of a
-- microsecond, and zero before it.
pub parse_bytes-file :
    (ps : List PcapPacket) → All PacketFits ps → parse_bytes (file_bytes ps) ≡ ok (stamped ps)
unfolding parse_bytes
parse_bytes-file ps fits =
    let long : ltb (length (file_bytes ps)) 24 ≡ false = ground (arith, file-length ps) in
    rw long (
      rw (file-order ps) (
        rw (file-link ps) (
          rw (drop_file ps) (
            parse_records-records (suc (length (file_bytes ps))) none ps fits
              (omega (arith, file-length ps))
            ∙ ap (λ (xs : List PcapPacket). ok xs) (stamped_after-none ps)))))
