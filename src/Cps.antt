-- ===== src/Cps.antt =====
-- src/cps.c: the templates of the packets sent before a handshake, and the packets made from them.
pub mod Parse
pub mod Size
pub mod Sound
mod Tests
use awg2_webui.Base.{
  ℕ, zero, suc, ◌+◌, ◌%◌, Bool, true, false, Option, some, none, List, [], ◌∷◌, ◌++◌, bit_xor, ltb,
  leb, ◌==◌, if◌then◌else◌, length, take, drop, byte_at, be32, u8, u32, codes,
}
use awg2_webui.Rand.{fastrand_init, fastrand_intn, fastrand_fill}

-- `cps_segment_t`: a kind with the fields that it uses.
pub data Segment : Type 0 where
  static_bytes : (data_off data_len : ℕ) → Segment
  random random_chars random_digits : (size : ℕ) → Segment
  timestamp counter : Segment

-- `cps_template_t`: the arrays as far as they are used, so `nseg` and `static_used` are their lengths.
pub record Template : Type 0 where
  pub segs : List Segment
  pub static_data : List ℕ

-- What one segment adds in `cps_max_size`.
unfoldable pub segment_size : Segment → ℕ
segment_size (static_bytes data_off data_len) = data_len
segment_size (random size) = size
segment_size (random_chars size) = size
segment_size (random_digits size) = size
segment_size timestamp = 4
segment_size counter = 4

unfoldable pub total_size : List Segment → ℕ
unfolding segment_size
total_size [] = 0
total_size (seg ∷ segs) = segment_size seg + total_size segs

-- `cps_max_size`
unfoldable pub cps_max_size : Template → ℕ
unfolding total_size
cps_max_size t = total_size t.segs

abbrev pub alpha : List ℕ
alpha = codes "abcdefghijklmnopqrstuvwxyzABCDEFGHIJKLMNOPQRSTUVWXYZ"

-- `buf[off + j] = f(fastrand_intn(&rng, n))`, `size` times: the bytes, and the new state.
unfoldable pub fill_chars : (ℕ → ℕ) → ℕ → ℕ → ℕ → List ℕ × ℕ
unfolding fastrand_intn
fill_chars f n zero rng = ([], rng)
fill_chars f n (suc size) rng =
    let (v, rng') = fastrand_intn rng n in
    let (bytes, last) = fill_chars f n size rng' in (u8 (f v) ∷ bytes, last)

-- The bytes of one segment, and the new state. `now` is what `time` returns.
unfoldable pub segment_bytes : List ℕ → ℕ → ℕ → Segment → ℕ → List ℕ × ℕ
unfolding fill_chars fastrand_fill
segment_bytes static_data now count (static_bytes data_off data_len) rng =
    (take data_len (drop data_off static_data), rng)
segment_bytes static_data now count (random size) rng = fastrand_fill rng size
segment_bytes static_data now count (random_chars size) rng = fill_chars (byte_at alpha) 52 size rng
segment_bytes static_data now count (random_digits size) rng =
    fill_chars (λ v. b'0' + v) 10 size rng
segment_bytes static_data now count timestamp rng = (be32 (u32 now), rng)
segment_bytes static_data now count counter rng = (be32 count, rng)

-- The loop of `cps_generate`, with `off` bytes stored. The first segment that does not fit ends it.
-- `clock` gives the time at each of the segments that are left.
unfoldable pub generate_from : List ℕ → (ℕ → ℕ) → ℕ → ℕ → ℕ → ℕ → List Segment → List ℕ
unfolding segment_size segment_bytes
generate_from static_data clock count bufsize off rng [] = []
generate_from static_data clock count bufsize off rng (seg ∷ segs) =
    let (bytes, rng') = segment_bytes static_data (clock (length segs)) count seg rng in
    let rest = generate_from static_data clock count bufsize (off + segment_size seg) rng' segs in
    if ltb bufsize (off + segment_size seg) then [] else bytes ++ rest

-- `cps_generate`: the bytes stored; their number is what it returns.
unfoldable pub cps_generate : (ℕ → ℕ) → Template → ℕ → ℕ → List ℕ
unfolding generate_from fastrand_init
cps_generate clock t count bufsize =
    generate_from t.static_data clock count bufsize 0 (fastrand_init (bit_xor count 3735928559))
      t.segs

-- `cps_generate_all`: the packets, and the counter after them. The counter goes up with each packet.
unfoldable pub cps_generate_all : (ℕ → ℕ) → List (Option Template) → ℕ → List (List ℕ) × ℕ
unfolding cps_generate
cps_generate_all clock [] count = ([], count)
cps_generate_all clock (none ∷ templates) count = cps_generate_all clock templates count
cps_generate_all clock (some t ∷ templates) count =
    let (packets, last) = cps_generate_all clock templates (u32 (count + 1)) in
    (cps_generate clock t count 1500 ∷ packets, last)
