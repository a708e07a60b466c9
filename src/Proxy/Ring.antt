-- ===== src/Proxy/Ring.antt =====
-- The ring of H4 values of src/proxy.c.
use awg2_webui.Base.{
  ℕ, zero, suc, ◌+◌, ◌≤◌, ◌<◌, ◌^◌, ◌≡◌, refl, ap, Bool, true, false, List, [], ◌∷◌, ◌==◌,
  if◌then◌else◌, length, get_or, replicate, length-replicate, arith, low_bits, All, All-replicate,
}
use awg2_webui.Rand.{fastrand_u64}
use awg2_webui.Transform.{Hrange, hrange_contains}
use awg2_webui.Transform.Ranges.{IsRange, hrange_pick-mem}
use awg2_webui.Proxy.{ProxyState, h4_ring_size, ring_values, fill_h4_ring, pick_h4}

-- A 32-bit member of the range.
abbrev pub IsMember : Hrange → ℕ → Type 0
IsMember r v = (hrange_contains r v ≡ true) × (v < 2 ^ 32)

-- The ring is full of members of the range, and the index is in it.
abbrev pub IsRing : Hrange → ProxyState → Type 0
IsRing r p =
    All (IsMember r) p.h4_ring × ((length p.h4_ring ≡ h4_ring_size) × (p.h4_idx < h4_ring_size))

ring_values_lem :
    (r : Hrange) (n rng : ℕ)
    → IsRange r
    → All (IsMember r) (ring_values r n rng).0 × (length (ring_values r n rng).0 ≡ n)
unfolding ring_values
ring_values_lem r zero rng range = (tt, refl)
ring_values_lem r (suc n) rng range =
    let (members, size) = ring_values_lem r n (fastrand_u64 rng) range in
    ((hrange_pick-mem r (fastrand_u64 rng) range, members), ap suc size)

get_or-All : (P : ℕ → Type 0) (l : List ℕ) (i d : ℕ) → All P l → i < length l → P (get_or l i d)
get_or-All P [] i d h k = absurd (omega arith)
get_or-All P (x ∷ l) zero d h k = h.0
get_or-All P (x ∷ l) (suc i) d h k = get_or-All P l i d h.1 (omega arith)

min_IsMember : (r : Hrange) → IsRange r → IsMember r r.min
unfolding hrange_contains
min_IsMember r range =
    let o : r.min ≤ r.max = range.ordered in let f : r.max < 2 ^ 32 = range.fits in ground arith

if-IsRing :
    (r : Hrange) (b : Bool) (p q : ProxyState)
    → IsRing r p
    → IsRing r q
    → IsRing r (if b then p else q)
if-IsRing r true p q h k = h
if-IsRing r false p q h k = k

replicate_members :
    (r : Hrange) (n : ℕ)
    → IsRange r
    → All (IsMember r) (replicate n r.min) × (length (replicate n r.min) ≡ n)
replicate_members r n range =
    (All-replicate (IsMember r) n r.min (min_IsMember r range), length-replicate n r.min)

-- A refill leaves the ring full of members.
fill_h4_ring-IsRing :
    (r : Hrange) (p : ProxyState)
    → IsRange r
    → p.h4_idx < h4_ring_size
    → IsRing r (fill_h4_ring r p)
unfolding fill_h4_ring
fill_h4_ring-IsRing r p range idx =
    let (members, size) = ring_values_lem r h4_ring_size p.rng range in
    let (copies, number) = replicate_members r h4_ring_size range in
    if-IsRing r (r.min == r.max) _ _ (copies, (number, idx)) (members, (size, idx))

-- While the ring is full of 32-bit members of the range, the value that `pick_h4` takes is one, and the
-- ring still is full of them afterwards, the refill at the end of a round included.
pub pick_h4-IsRing :
    (r : Hrange) (p : ProxyState)
    → IsRange r
    → IsRing r p
    → IsMember r (pick_h4 r p).0 × IsRing r (pick_h4 r p).1
unfolding pick_h4
pick_h4-IsRing r p range (members, (size, idx)) =
    let next : ProxyState = record p { h4_idx = low_bits (p.h4_idx + 1) 12 } in
    let small : next.h4_idx < h4_ring_size = omega arith in
    (
      get_or-All (IsMember r) p.h4_ring p.h4_idx 0 members (omega (arith, size, idx)),
      if-IsRing r (next.h4_idx == 0) (fill_h4_ring r next) next
          (fill_h4_ring-IsRing r next range small) (members, (size, small)),
    )
