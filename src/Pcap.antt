-- ===== src/Pcap.antt =====
-- Capture files for replay, src/lib/pcap.rs: the parser of their bytes, and the writer that its tests
-- use. A duration is a number of nanoseconds, an address its octets and port.
pub mod RoundTrip
mod Tests
use Prim.Native.Nat.{bit_and}
use mayara_server.Common.{
  ℕ, zero, suc, ◌+◌, ◌-◌, ◌*◌, ◌/◌, ◌%◌, ◌^◌, Bool, true, false, not, ◌||◌, List, [], ◌∷◌, ◌++◌,
  Option, none, some, Result, ok, err, ◌>>=◌, length, drop, take, get_or, replicate, ltb, ◌==◌,
  if◌then◌else◌,
}
use mayara_server.Bytes.{to_le_bytes, from_le_bytes, from_be_bytes, slice}

pub record PcapPacket : Type 0 where
  pub timestamp : ℕ
  pub src_ip : List ℕ
  pub src_port : ℕ
  pub dst_ip : List ℕ
  pub dst_port : ℕ
  pub payload : List ℕ

-- The errors; `stuck` is no error of the program: the loop ran out of fuel.
pub data PcapError : Type 0 where
  too_short bad_magic unsupported_link_type stuck : PcapError

abbrev pub be_16 : ℕ → List ℕ → ℕ
be_16 i bytes = from_be_bytes (slice i 2 bytes)

unfoldable pub parse_udp_packet : List ℕ → ℕ → Option PcapPacket
parse_udp_packet bytes timestamp =
    let ip = drop 14 bytes in
    let ihl = bit_and (get_or ip 0 0) 0x0f * 4 in
    let udp = drop ihl ip in
    let udp_len = be_16 4 udp in
    if ltb (length bytes) 42
    then none
    else if not (be_16 12 bytes == 0x0800)
    then none
    else if ltb (length ip) 20
    then none
    else if ltb ihl 20 || ltb (length ip) ihl
    then none
    else if not (get_or ip 9 0 == 17)
    then none
    else if not (bit_and (be_16 6 ip) 0x3FFF == 0)
    then none
    else if ltb (length udp) 8
    then none
    else if ltb udp_len 8 || ltb (length udp) udp_len
    then none
    else some (record {
      timestamp = timestamp;
      src_ip = slice 12 4 ip;
      src_port = be_16 0 udp;
      dst_ip = slice 16 4 ip;
      dst_port = be_16 2 udp;
      payload = take (udp_len - 8) (drop 8 udp);
    })

-- `(swap, nanoseconds)`
unfoldable pub byte_order : ℕ → Option (Bool × Bool)
byte_order magic =
    if magic == 0xa1b2c3d4
    then some (false, false)
    else if magic == 0xd4c3b2a1
    then some (true, false)
    else if magic == 0xa1b23c4d
    then some (false, true)
    else if magic == 0x4d3cb2a1
    then some (true, true)
    else none

-- `swap_bytes` of a little-endian number is the big-endian one.
abbrev pub read_u32 : Bool → ℕ → List ℕ → ℕ
read_u32 swap i bytes =
    if swap then from_be_bytes (slice i 4 bytes) else from_le_bytes (slice i 4 bytes)

-- A time since the first one, of the fractions that `divisor` counts.
abbrev pub since : ℕ → ℕ × ℕ → ℕ × ℕ → ℕ
since divisor first now =
    (now.0 * divisor + now.1 - (first.0 * divisor + first.1)) * (1000000000 / divisor)

abbrev pub first_or : Option (ℕ × ℕ) → ℕ × ℕ → ℕ × ℕ
first_or none now = now
first_or (some first) now = first

-- The loop over the records from `offset` on, on fuel.
unfoldable pub parse_records :
    ℕ → Bool → ℕ → Option (ℕ × ℕ) → List ℕ → Result PcapError (List PcapPacket)
parse_records zero swap divisor first rest = err stuck
parse_records (suc fuel) swap divisor first rest =
    let now : ℕ × ℕ = (read_u32 swap 0 rest, read_u32 swap 4 rest) in
    let incl_len = read_u32 swap 8 rest in
    let body = drop 16 rest in
    let round : Result PcapError (List PcapPacket) =
      elim (parse_udp_packet (take incl_len body) 0) [
        | none ↦ parse_records fuel swap divisor first (drop incl_len body)
        | some pkt ↦
            parse_records fuel swap divisor (some (first_or first now)) (drop incl_len body)
            >>= λ pkts.
                ok (record pkt { timestamp = since divisor (first_or first now) now } ∷ pkts)
      ] in
    if ltb (length rest) 16 then ok [] else if ltb (length body) incl_len then ok [] else round

-- Each record takes 16 bytes at least, so the length of the file bounds the rounds.
unfoldable pub parse_bytes : List ℕ → Result PcapError (List PcapPacket)
parse_bytes bytes =
    if ltb (length bytes) 24
    then err too_short
    else elim (byte_order (from_le_bytes (slice 0 4 bytes))) [
      | none ↦ err bad_magic
      | some (swap, nanoseconds) ↦
          if read_u32 swap 20 bytes == 1
          then parse_records (suc (length bytes)) swap (if nanoseconds then 1000000000 else 1000000)
              none (drop 24 bytes)
          else err unsupported_link_type
    ]

abbrev pub be_bytes_16 : ℕ → List ℕ
be_bytes_16 n = n / 256 % 256 ∷ n % 256 ∷ []

-- The Ethernet frame that `write_file` puts around a payload.
unfoldable pub frame_bytes : PcapPacket → List ℕ
frame_bytes p =
    replicate 12 0
    ++ (be_bytes_16 0x0800
        ++ (0x45
            ∷ 0
            ∷ (be_bytes_16 (28 + length p.payload)
                ++ (0
                    ∷ 0
                    ∷ 0
                    ∷ 0
                    ∷ 64
                    ∷ 17
                    ∷ 0
                    ∷ 0
                    ∷ (p.src_ip
                        ++ (p.dst_ip
                            ++ (be_bytes_16 p.src_port
                                ++ (be_bytes_16 p.dst_port
                                    ++ (be_bytes_16 (8 + length p.payload)
                                        ++ (0 ∷ 0 ∷ p.payload))))))))))

-- Seconds and microseconds of a duration.
abbrev pub stamp : ℕ → ℕ × ℕ
stamp t = (t / 1000000000, t % 1000000000 / 1000)

unfoldable pub record_bytes : PcapPacket → List ℕ
record_bytes p =
    to_le_bytes 4 (stamp p.timestamp).0
    ++ (to_le_bytes 4 (stamp p.timestamp).1
        ++ (to_le_bytes 4 (42 + length p.payload)
            ++ (to_le_bytes 4 (42 + length p.payload) ++ frame_bytes p)))

unfoldable pub records_bytes : List PcapPacket → List ℕ
records_bytes [] = []
records_bytes (p ∷ ps) = record_bytes p ++ records_bytes ps

-- What `write_file` writes, uncompressed.
unfoldable pub file_bytes : List PcapPacket → List ℕ
file_bytes ps =
    to_le_bytes 4 0xa1b2c3d4
    ++ (to_le_bytes 2 2
        ++ (to_le_bytes 2 4
            ++ (to_le_bytes 4 0
                ++ (to_le_bytes 4 0
                    ++ (to_le_bytes 4 65535 ++ (to_le_bytes 4 1 ++ records_bytes ps))))))
