-- ===== src/Cps/Size.antt =====
-- The size of the packets that src/cps.c makes.
use awg2_webui.Base.{
  ℕ, zero, suc, ◌+◌, ◌≤◌, ◌≡◌, refl, ap, false, List, [], ◌∷◌, ◌++◌, ltb, length, drop,
  length-append, length-take, length-drop, byte_at, arith, All, Bool-cases, inl, inr, bit_xor,
}
use awg2_webui.Rand.{fastrand_init, length-fastrand_fill}
use awg2_webui.Cps.{
  Segment, static_bytes, random, random_chars, random_digits, timestamp, counter, Template, alpha,
  segment_size, total_size, cps_max_size, fill_chars, segment_bytes, generate_from, cps_generate,
}

-- The segment's run of static bytes lies in the static data.
abbrev pub IsInside : List ℕ → Segment → Type 0
IsInside static_data (static_bytes off len) = off + len ≤ length static_data
IsInside static_data (random size) = Unit
IsInside static_data (random_chars size) = Unit
IsInside static_data (random_digits size) = Unit
IsInside static_data timestamp = Unit
IsInside static_data counter = Unit

length-fill_chars : (f : ℕ → ℕ) (n size rng : ℕ) → length (fill_chars f n size rng).0 ≡ size
unfolding fill_chars
length-fill_chars f n zero rng = refl
length-fill_chars f n (suc size) rng = ap suc (length-fill_chars f n size _)

length-segment_bytes :
    (static_data : List ℕ) (now count : ℕ) (seg : Segment) (rng : ℕ)
    → IsInside static_data seg
    → length (segment_bytes static_data now count seg rng).0 ≡ segment_size seg
unfolding segment_bytes segment_size
length-segment_bytes d now count (static_bytes off len) rng h =
    omega (arith, length-take len (drop off d), length-drop off d, h)
length-segment_bytes d now count (random size) rng h = length-fastrand_fill rng size
length-segment_bytes d now count (random_chars size) rng h =
    length-fill_chars (byte_at alpha) 52 size rng
length-segment_bytes d now count (random_digits size) rng h =
    length-fill_chars (λ v. b'0' + v) 10 size rng
length-segment_bytes d now count timestamp rng h = refl
length-segment_bytes d now count counter rng h = refl

module _ (d : List ℕ) (clock : ℕ → ℕ) (count bufsize : ℕ) where
  generate_from-fits :
      (segs : List Segment) (off rng : ℕ)
      → All (IsInside d) segs
      → off ≤ bufsize
      → off + length (generate_from d clock count bufsize off rng segs) ≤ bufsize
  unfolding generate_from
  generate_from-fits [] off rng h le = omega arith
  generate_from-fits (seg ∷ segs) off rng (inside, h) le =
      elim (Bool-cases (ltb bufsize (off + segment_size seg))) [
        | inl over ↦ ground (arith, over)
        | inr fits ↦
            let step = segment_bytes d (clock (length segs)) count seg rng in
            let size : length step.0 ≡ segment_size seg =
              length-segment_bytes d (clock (length segs)) count seg rng inside in
            let rest : List ℕ =
              generate_from d clock count bufsize (off + segment_size seg) step.1 segs in
            let whole : length (step.0 ++ rest) ≡ length step.0 + length rest =
              length-append step.0 rest in
            let below : off + segment_size seg + length rest ≤ bufsize =
              generate_from-fits segs (off + segment_size seg) step.1 h (ground (arith, fits)) in
            rw (fits) (omega (arith, size, whole, below))
      ]

  generate_from-total :
      (segs : List Segment) (off rng : ℕ)
      → All (IsInside d) segs
      → off + total_size segs ≤ bufsize
      → length (generate_from d clock count bufsize off rng segs) ≡ total_size segs
  unfolding generate_from total_size
  generate_from-total [] off rng h le = refl
  generate_from-total (seg ∷ segs) off rng (inside, h) le =
      let step = segment_bytes d (clock (length segs)) count seg rng in
      let size : length step.0 ≡ segment_size seg =
        length-segment_bytes d (clock (length segs)) count seg rng inside in
      let rest : List ℕ =
        generate_from d clock count bufsize (off + segment_size seg) step.1 segs in
      let whole : length (step.0 ++ rest) ≡ length step.0 + length rest =
        length-append step.0 rest in
      let after : length rest ≡ total_size segs =
        generate_from-total segs (off + segment_size seg) step.1 h (omega (arith, le)) in
      let fits : ltb bufsize (off + segment_size seg) ≡ false = ground (arith, le) in
      rw (fits) (omega (arith, size, whole, after))

-- A packet never runs past the buffer, whatever the segments call for, when the static segments lie in
-- the static data.
pub cps_generate-fits :
    (clock : ℕ → ℕ) (t : Template) (count bufsize : ℕ)
    → All (IsInside t.static_data) t.segs
    → length (cps_generate clock t count bufsize) ≤ bufsize
unfolding cps_generate
cps_generate-fits clock t count bufsize inside = omega (
  arith,
  generate_from-fits t.static_data clock count bufsize t.segs 0
      (fastrand_init (bit_xor count 3735928559)) inside (omega arith),
)

-- In a buffer that holds `cps_max_size` bytes a packet has exactly that many.
pub cps_generate-max_size :
    (clock : ℕ → ℕ) (t : Template) (count bufsize : ℕ)
    → All (IsInside t.static_data) t.segs
    → cps_max_size t ≤ bufsize
    → length (cps_generate clock t count bufsize) ≡ cps_max_size t
unfolding cps_generate cps_max_size
cps_generate-max_size clock t count bufsize inside fits =
    generate_from-total t.static_data clock count bufsize t.segs 0
      (fastrand_init (bit_xor count 3735928559)) inside (omega arith)
