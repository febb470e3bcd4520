-- ===== src/Furuno/Protocol.antt =====
-- Constants of src/lib/brand/furuno/protocol.rs that the echo frames use.
use Prim.Native.Nat.{ℕ}

abbrev pub spoke_len : ℕ
spoke_len = 1024

abbrev pub frame_magic : ℕ
frame_magic = 0x02

abbrev pub encoding_1_repeat_default : ℕ
encoding_1_repeat_default = 0x80

abbrev pub encoding_3_repeat_default : ℕ
encoding_3_repeat_default = 0x40

abbrev pub tile_magic : ℕ
tile_magic = 2

abbrev pub tile_scale : ℕ
tile_scale = 496

abbrev pub tile_repeat_default : ℕ
tile_repeat_default = 128
