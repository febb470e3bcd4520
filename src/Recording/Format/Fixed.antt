-- ===== src/Recording/Format/Fixed.antt =====
-- The records of fixed size, of src/lib/recording/file_format.rs: header, footer and index entry.
use mayara_server.Common.{
  ℕ, ◌+◌, ◌^◌, ◌≤◌, ◌<◌, ◌≡◌, refl, sym, arith, true, List, ◌++◌, if◌then◌else◌, drop, length-take,
  length-drop, take, ok, err, length, leb, ap, leb→le, >>=-eq-ok, guard-eq-ok,
}
use mathlib.Core.Path.{subst}
use mayara_server.Bytes.{IsByte, All, to_le_bytes, from_le_bytes, read_exact, slice}
use mayara_server.Bytes.Laws.{
  from-to_le_bytes, from_le_bytes-lt, All-take, All-drop, read_exact-append, read_exact_short,
}
use mayara_server.Recording.Format.{
  MrrHeader, MrrFooter, MrrIndexEntry, unexpected_eof, unsupported_version, bad_magic, bytes_eq,
  mrr_magic, mrr_footer_magic, header_write, header_read, header_of, footer_write, footer_read,
  footer_of, index_entry_write, index_entry_read, exactly, mrr_version,
}

-- Every field fits its width in the file.
pub record HeaderFits (h : MrrHeader) : Type 0 where
  pub version_fits : h.version < 2 ^ 16
  pub flags_fits : h.flags < 2 ^ 16
  pub radar_brand_fits : h.radar_brand < 2 ^ 32
  pub spokes_per_rev_fits : h.spokes_per_rev < 2 ^ 32
  pub max_spoke_len_fits : h.max_spoke_len < 2 ^ 32
  pub pixel_values_fits : h.pixel_values < 2 ^ 32
  pub start_time_ms_fits : h.start_time_ms < 2 ^ 64
  pub capabilities_offset_fits : h.capabilities_offset < 2 ^ 64
  pub capabilities_len_fits : h.capabilities_len < 2 ^ 32
  pub initial_state_offset_fits : h.initial_state_offset < 2 ^ 64
  pub initial_state_len_fits : h.initial_state_len < 2 ^ 32
  pub frames_offset_fits : h.frames_offset < 2 ^ 64

pub record FooterFits (f : MrrFooter) : Type 0 where
  pub index_offset_fits : f.index_offset < 2 ^ 64
  pub index_count_fits : f.index_count < 2 ^ 32
  pub frame_count_fits : f.frame_count < 2 ^ 32
  pub duration_ms_fits : f.duration_ms < 2 ^ 64

pub record EntryFits (e : MrrIndexEntry) : Type 0 where
  pub timestamp_ms_fits : e.timestamp_ms < 2 ^ 64
  pub file_offset_fits : e.file_offset < 2 ^ 64

-- A `read_exact` of the length of the front.
pub exactly-append :
    (n : ℕ) (front back : List ℕ) → length front ≡ n → exactly n (front ++ back) ≡ ok (front, back)
exactly-append n front back h = rw (read_exact-append n front back h, exactly)

pub exactly_short : (n : ℕ) (src : List ℕ) → length src < n → exactly n src ≡ err unexpected_eof
exactly_short n src h = rw (read_exact_short n src h, exactly)

pub length-header_write : (h : MrrHeader) → length (header_write h) ≡ 256
unfolding header_write to_le_bytes
length-header_write h = refl

pub length-footer_write : (f : MrrFooter) → length (footer_write f) ≡ 32
unfolding footer_write to_le_bytes
length-footer_write f = refl

pub length-index_entry_write : (e : MrrIndexEntry) → length (index_entry_write e) ≡ 16
unfolding index_entry_write to_le_bytes
length-index_entry_write e = refl

-- The slices of a written header are its fields.
header_of-write : (h : MrrHeader) → HeaderFits h → header_of (header_write h) ≡ h
unfolding header_of header_write to_le_bytes from_le_bytes
header_of-write h fits = λ i. record {
  version = from-to_le_bytes 2 h.version fits.version_fits i;
  flags = from-to_le_bytes 2 h.flags fits.flags_fits i;
  radar_brand = from-to_le_bytes 4 h.radar_brand fits.radar_brand_fits i;
  spokes_per_rev = from-to_le_bytes 4 h.spokes_per_rev fits.spokes_per_rev_fits i;
  max_spoke_len = from-to_le_bytes 4 h.max_spoke_len fits.max_spoke_len_fits i;
  pixel_values = from-to_le_bytes 4 h.pixel_values fits.pixel_values_fits i;
  start_time_ms = from-to_le_bytes 8 h.start_time_ms fits.start_time_ms_fits i;
  capabilities_offset = from-to_le_bytes 8 h.capabilities_offset fits.capabilities_offset_fits i;
  capabilities_len = from-to_le_bytes 4 h.capabilities_len fits.capabilities_len_fits i;
  initial_state_offset = from-to_le_bytes 8 h.initial_state_offset fits.initial_state_offset_fits i;
  initial_state_len = from-to_le_bytes 4 h.initial_state_len fits.initial_state_len_fits i;
  frames_offset = from-to_le_bytes 8 h.frames_offset fits.frames_offset_fits i;
}

header_magic : (h : MrrHeader) → bytes_eq (take 4 (header_write h)) mrr_magic ≡ true
unfolding header_write bytes_eq
header_magic h = refl

header_version :
    (h : MrrHeader) → HeaderFits h → from_le_bytes (slice 4 2 (header_write h)) ≡ h.version
unfolding header_of
header_version h fits = ap (λ (k : MrrHeader). k.version) (header_of-write h fits)

-- A header whose fields fit is read back as it was written, and the bytes behind it are left;
-- a header of a later version is refused with that version.
pub header_read-write :
    (h : MrrHeader) (rest : List ℕ)
    → HeaderFits h
    → header_read (header_write h ++ rest)
      ≡ (if leb h.version mrr_version then ok (h, rest) else err (unsupported_version h.version))
unfolding header_read
header_read-write h rest fits =
    rw (exactly-append 256 (header_write h) rest (length-header_write h)) (
      rw (header_magic h) (rw (header_version h fits) (rw (header_of-write h fits) (ground arith))))

footer_of-write : (f : MrrFooter) → FooterFits f → footer_of (footer_write f) ≡ f
unfolding footer_of footer_write to_le_bytes from_le_bytes
footer_of-write f fits = λ i. record {
  index_offset = from-to_le_bytes 8 f.index_offset fits.index_offset_fits i;
  index_count = from-to_le_bytes 4 f.index_count fits.index_count_fits i;
  frame_count = from-to_le_bytes 4 f.frame_count fits.frame_count_fits i;
  duration_ms = from-to_le_bytes 8 f.duration_ms fits.duration_ms_fits i;
}

footer_magic : (f : MrrFooter) → bytes_eq (take 4 (footer_write f)) mrr_footer_magic ≡ true
unfolding footer_write bytes_eq
footer_magic f = refl

-- A footer whose fields fit is read back as it was written, and the bytes behind it are left.
pub footer_read-write :
    (f : MrrFooter) (rest : List ℕ)
    → FooterFits f
    → footer_read (footer_write f ++ rest) ≡ ok (f, rest)
unfolding footer_read
footer_read-write f rest fits =
    rw (exactly-append 32 (footer_write f) rest (length-footer_write f))
      (rw (footer_magic f) (rw (footer_of-write f fits)))

entry_of-write :
    (e : MrrIndexEntry)
    → EntryFits e
    → let buf = index_entry_write e in
      ◌≡◌ {A = MrrIndexEntry}
        (record {
          timestamp_ms = from_le_bytes (slice 0 8 buf);
          file_offset = from_le_bytes (slice 8 8 buf);
        })
        e
unfolding index_entry_write to_le_bytes from_le_bytes
entry_of-write e fits = λ i. record {
  timestamp_ms = from-to_le_bytes 8 e.timestamp_ms fits.timestamp_ms_fits i;
  file_offset = from-to_le_bytes 8 e.file_offset fits.file_offset_fits i;
}

-- An index entry whose fields fit is read back as it was written, and the bytes behind it are left.
pub index_entry_read-write :
    (e : MrrIndexEntry) (rest : List ℕ)
    → EntryFits e
    → index_entry_read (index_entry_write e ++ rest) ≡ ok (e, rest)
unfolding index_entry_read
index_entry_read-write e rest fits =
    rw (exactly-append 16 (index_entry_write e) rest (length-index_entry_write e))
      (ap (λ (x : MrrIndexEntry). ok (x, rest)) (entry_of-write e fits))

-- `exactly` succeeds only by splitting the source.
pub exactly_parts :
    (n : ℕ) (src bytes rest : List ℕ)
    → exactly n src ≡ ok (bytes, rest)
    → (bytes ≡ take n src) × (rest ≡ drop n src) × (n ≤ length src)
unfolding read_exact
exactly_parts n src bytes rest h = ground arith

slice-lt :
    (from n : ℕ) (buf : List ℕ)
    → All IsByte buf
    → from_le_bytes (slice from n buf) < 256 ^ length (slice from n buf)
slice-lt from n buf h =
    from_le_bytes-lt (slice from n buf)
      (All-take IsByte n (drop from buf) (All-drop IsByte from buf h))

slice_fits :
    (from n : ℕ) (buf : List ℕ)
    → All IsByte buf
    → from + n ≤ length buf
    → from_le_bytes (slice from n buf) < 256 ^ n
slice_fits from n buf h room =
    let e : length (slice from n buf) ≡ n =
      omega (arith, length-take n (drop from buf), length-drop from buf) in
    rw e at (slice-lt from n buf h)

header_of-HeaderFits :
    (buf : List ℕ) → All IsByte buf → length buf ≡ 256 → HeaderFits (header_of buf)
unfolding header_of
header_of-HeaderFits buf h e = record {
  version_fits = slice_fits 4 2 buf h (omega arith);
  flags_fits = slice_fits 6 2 buf h (omega arith);
  radar_brand_fits = slice_fits 8 4 buf h (omega arith);
  spokes_per_rev_fits = slice_fits 12 4 buf h (omega arith);
  max_spoke_len_fits = slice_fits 16 4 buf h (omega arith);
  pixel_values_fits = slice_fits 20 4 buf h (omega arith);
  start_time_ms_fits = slice_fits 24 8 buf h (omega arith);
  capabilities_offset_fits = slice_fits 32 8 buf h (omega arith);
  capabilities_len_fits = slice_fits 40 4 buf h (omega arith);
  initial_state_offset_fits = slice_fits 44 8 buf h (omega arith);
  initial_state_len_fits = slice_fits 52 4 buf h (omega arith);
  frames_offset_fits = slice_fits 56 8 buf h (omega arith);
}

header_read_parts :
    (src rest : List ℕ) (h : MrrHeader)
    → header_read src ≡ ok (h, rest)
    → (h ≡ header_of (take 256 src))
      × (from_le_bytes (slice 4 2 (take 256 src)) ≤ 1)
      × (256 ≤ length src)
      × (rest ≡ drop 256 src)
      × (bytes_eq (take 4 (take 256 src)) mrr_magic ≡ true)
unfolding header_read
header_read_parts src rest h e =
    let ((buf, back), taken, e₁) = >>=-eq-ok (exactly 256 src) _ e in
    let (bytes_are, rest_is, enough) = exactly_parts 256 src buf back taken in
    let (magic, e₂) = guard-eq-ok (bytes_eq (take 4 buf) mrr_magic) bad_magic _ e₁ in
    let (old, e₃) = guard-eq-ok (leb (from_le_bytes (slice 4 2 buf)) mrr_version) _ _ e₂ in
    (cc, leb→le _ _ (rw (← bytes_are) old), enough, cc, rw (← bytes_are) magic)

-- What `header_read` accepts begins with the magic and holds 256 bytes before the rest; the header
-- fits its widths and has a supported version.
pub header_read_accepts :
    (src rest : List ℕ) (h : MrrHeader)
    → All IsByte src
    → header_read src ≡ ok (h, rest)
    → HeaderFits h
      × (h.version ≤ 1)
      × (256 ≤ length src)
      × (rest ≡ drop 256 src)
      × (bytes_eq (take 4 (take 256 src)) mrr_magic ≡ true)
unfolding header_of
header_read_accepts src rest h bytes e =
    let (same, old, enough, behind, magic) = header_read_parts src rest h e in
    (
      subst HeaderFits (sym same) (
          header_of-HeaderFits (take 256 src) (All-take IsByte 256 src bytes)
            (omega (arith, length-take 256 src))),
      rw same old,
      enough,
      behind,
      magic,
    )
