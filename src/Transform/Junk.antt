-- ===== src/Transform/Junk.antt =====
-- `generate_junk` of src/transform.c: the sizes of the junk packets before a handshake.
use awg2_webui.Base.{
  ℕ, zero, suc, ◌+◌, ◌-◌, ◌*◌, ◌≤◌, ◌<◌, ◌≡◌, refl, ◌||◌, List, [], ◌∷◌, bit_or, ltb, leb, ◌==◌,
  if◌then◌else◌, length, All, All-map, ap, arith,
}
use awg2_webui.Rand.{fastrand_init, fastrand_intn}
use awg2_webui.Transform.{Config, read32_le}

-- The loop, with the packets left and the generator's state.
unfoldable pub junk_sizes : ℕ → ℕ → ℕ → ℕ → List ℕ
junk_sizes zero jmin span s = []
junk_sizes (suc left) jmin span s =
    let (n, s') = fastrand_intn s span in
    (if ltb 1 span then jmin + n else jmin)
    ∷ junk_sizes left jmin span (if ltb 1 span then s' else s)

abbrev pub junk_min : Config → ℕ
junk_min c = if ltb 0 c.jmin then c.jmin else 1

abbrev pub junk_max : Config → ℕ
junk_max c = if leb (junk_min c) c.jmax then c.jmax else junk_min c

unfoldable pub generate_junk : Config → List ℕ → List ℕ
unfolding junk_sizes
generate_junk c junk_buf =
    if c.jc == 0 || c.jmax == 0
    then []
    else junk_sizes c.jc (junk_min c) (junk_max c - junk_min c + 1)
        (fastrand_init (bit_or (read32_le junk_buf) 1))

abbrev pub total : List ℕ → ℕ
total [] = 0
total (x ∷ xs) = x + total xs

junk_sizes_bounds :
    (left lo hi s : ℕ)
    → lo ≤ hi
    → All (λ n. (lo ≤ n) × (n ≤ hi)) (junk_sizes left lo (hi - lo + 1) s)
unfolding junk_sizes fastrand_intn
junk_sizes_bounds zero lo hi s h = tt
junk_sizes_bounds (suc left) lo hi s h = (ground arith, junk_sizes_bounds left lo hi _ h)

length-junk_sizes : (left lo span s : ℕ) → length (junk_sizes left lo span s) ≡ left
unfolding junk_sizes
length-junk_sizes zero lo span s = refl
length-junk_sizes (suc left) lo span s = omega (arith, length-junk_sizes left lo span _)

total_le : (lo hi : ℕ) (xs : List ℕ) → All (λ n. (lo ≤ n) × (n ≤ hi)) xs → total xs ≤ length xs * hi
total_le lo hi [] h = omega arith
total_le lo hi (x ∷ xs) h = grind (arith, total_le lo hi xs h.1)

-- With junk configured and the bounds in order there are `jc` packets, none is empty, each has from
-- `jmin` to `jmax` bytes, and all together fit the buffer of `jc * jmax` bytes.
pub generate_junk_bounds :
    (c : Config) (junk_buf : List ℕ)
    → 0 < c.jc
    → 0 < c.jmax
    → c.jmin ≤ c.jmax
    → (length (generate_junk c junk_buf) ≡ c.jc)
      × All (λ n. (0 < n) × (c.jmin ≤ n) × (n ≤ c.jmax)) (generate_junk c junk_buf)
      × (total (generate_junk c junk_buf) ≤ c.jc * c.jmax)
unfolding generate_junk
generate_junk_bounds c junk_buf h k o = rw runs (
  length-junk_sizes c.jc lo span seed,
  All-map (λ n. (lo ≤ n) × (n ≤ c.jmax)) _ (junk_sizes c.jc lo span seed)
      (λ n b. (ground arith, ground arith, b.1)) bounds,
  omega (
    arith,
    total_le lo c.jmax (junk_sizes c.jc lo span seed) bounds,
    ap (λ n. n * c.jmax) (length-junk_sizes c.jc lo span seed),
  ),
)
  where
    lo : ℕ
    lo = junk_min c

    span : ℕ
    span = c.jmax - lo + 1

    seed : ℕ
    seed = fastrand_init (bit_or (read32_le junk_buf) 1)

    low : lo ≤ c.jmax
    low = ground arith

    runs : generate_junk c junk_buf ≡ junk_sizes c.jc lo span seed
    runs = ground arith

    bounds : All (λ n. (lo ≤ n) × (n ≤ c.jmax)) (junk_sizes c.jc lo span seed)
    bounds = junk_sizes_bounds c.jc lo c.jmax seed low
