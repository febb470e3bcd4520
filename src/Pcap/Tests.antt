-- ===== src/Pcap/Tests.antt =====
-- Runs of the capture parser, and its theorem at two packets.
use mayara_server.Common.{◌≡◌, refl, arith, List, [], ◌∷◌, ok, err}
use mayara_server.Pcap.{PcapPacket, too_short, parse_bytes, file_bytes}
use mayara_server.Pcap.RoundTrip.{stamped, stamped_from, parse_bytes-file}

-- The packets of `roundtrip_write_parse`.
abbrev packets : List PcapPacket
packets =
    record {
      timestamp = 0;
      src_ip = 10 ∷ 0 ∷ 0 ∷ 1 ∷ [];
      src_port = 1234;
      dst_ip = 239 ∷ 0 ∷ 0 ∷ 1 ∷ [];
      dst_port = 5678;
      payload = 1 ∷ 2 ∷ 3 ∷ [];
    }
    ∷ record {
      timestamp = 100000000;
      src_ip = 10 ∷ 0 ∷ 0 ∷ 2 ∷ [];
      src_port = 4321;
      dst_ip = 239 ∷ 0 ∷ 0 ∷ 2 ∷ [];
      dst_port = 8765;
      payload = 0xAA ∷ 0xBB ∷ [];
    }
    ∷ []

same_packets : stamped packets ≡ packets
unfolding stamped stamped_from
same_packets = refl

short_file : parse_bytes (1 ∷ 2 ∷ []) ≡ err too_short
unfolding parse_bytes
short_file = refl

parse_bytes-file_example : parse_bytes (file_bytes packets) ≡ ok (stamped packets)
parse_bytes-file_example = parse_bytes-file packets (
  record {
    src_ip_fits = refl;
    dst_ip_fits = refl;
    src_port_fits = omega arith;
    dst_port_fits = omega arith;
    payload_fits = omega arith;
    seconds_fit = omega arith;
  },
  (
    record {
      src_ip_fits = refl;
      dst_ip_fits = refl;
      src_port_fits = omega arith;
      dst_port_fits = omega arith;
      payload_fits = omega arith;
      seconds_fit = omega arith;
    },
    tt,
  ),
)
