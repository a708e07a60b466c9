-- ===== src/Transform/Ranges.antt =====
-- The H ranges of src/transform.h.
use awg2_webui.Base.{ℕ, ◌≤◌, ◌<◌, ◌^◌, ◌≡◌, true, arith}
use awg2_webui.Transform.{Hrange, hrange_pick, hrange_contains}

-- A range of `uint32_t`, not empty.
pub record IsRange (r : Hrange) : Type 0 where
  pub ordered : r.min ≤ r.max
  pub fits : r.max < 2 ^ 32

-- Whatever the random value, `hrange_pick` of a range of 32-bit numbers picks a 32-bit member of it.
pub hrange_pick-mem :
    (r : Hrange) (rand_val : ℕ)
    → IsRange r
    → (hrange_contains r (hrange_pick r rand_val) ≡ true) × (hrange_pick r rand_val < 2 ^ 32)
unfolding hrange_pick hrange_contains
hrange_pick-mem r rand_val v = ground arith
