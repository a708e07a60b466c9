-- ===== src/Rand.antt =====
-- src/fastrand.c: the xorshift generator that fills paddings and junk.
use awg2_webui.Base.{
  ℕ, zero, suc, ◌+◌, ◌*◌, ◌/◌, ◌%◌, ◌<◌, ◌≡◌, List, [], ◌∷◌, ◌++◌, bit_xor, ◌==◌, if◌then◌else◌, u8,
  u64, shr, shl, length, take, length-take, arith,
}

-- `fastrand_init`: the state is the seed, but never zero.
unfoldable pub fastrand_init : ℕ → ℕ
fastrand_init seed = if seed == 0 then 1 else seed

-- `fastrand_u64`: the value is the new state.
unfoldable pub fastrand_u64 : ℕ → ℕ
fastrand_u64 s0 =
    let s1 = bit_xor s0 (u64 (shl s0 13)) in
    let s2 = bit_xor s1 (shr s1 7) in bit_xor s2 (u64 (shl s2 17))

-- `fastrand_intn`: the number, and the new state.
unfoldable pub fastrand_intn : ℕ → ℕ → ℕ × ℕ
fastrand_intn s n = let s' = fastrand_u64 s in (s' % n, s')

abbrev pub le64 : ℕ → List ℕ
le64 v =
    u8 v
    ∷ u8 (shr v 8)
    ∷ u8 (shr v 16)
    ∷ u8 (shr v 24)
    ∷ u8 (shr v 32)
    ∷ u8 (shr v 40)
    ∷ u8 (shr v 48)
    ∷ u8 (shr v 56)
    ∷ []

-- The loop of `fastrand_fill` over whole groups of eight bytes, and the rest of fewer than eight.
unfoldable pub fill_groups : ℕ → ℕ → ℕ → List ℕ × ℕ
fill_groups zero rest s =
    if rest == 0 then ([], s) else let v = fastrand_u64 s in (take rest (le64 v), v)
fill_groups (suc groups) rest s =
    let v = fastrand_u64 s in let (bytes, s') = fill_groups groups rest v in (le64 v ++ bytes, s')

-- `fastrand_fill`: the bytes stored, and the new state.
unfoldable pub fastrand_fill : ℕ → ℕ → List ℕ × ℕ
unfolding fill_groups
fastrand_fill s len = fill_groups (len / 8) (len % 8) s

length-fill_groups :
    (groups rest s : ℕ) → rest < 8 → length (fill_groups groups rest s).0 ≡ groups * 8 + rest
unfolding fill_groups
length-fill_groups zero rest s h = ground (arith, length-take rest (le64 (fastrand_u64 s)))
length-fill_groups (suc groups) rest s h =
    omega (arith, length-fill_groups groups rest (fastrand_u64 s) h)

-- `fastrand_fill` stores exactly as many bytes as it is asked for.
pub length-fastrand_fill : (s len : ℕ) → length (fastrand_fill s len).0 ≡ len
unfolding fastrand_fill
length-fastrand_fill s len = omega (arith, length-fill_groups (len / 8) (len % 8) s (omega arith))
