-- ===== src/Transform/Validate.antt =====
-- `config_validate` of src/transform.c, on the parameters as they are parsed.
use awg2_webui.Base.{
  ℕ, ◌-◌, ◌≤◌, ◌<◌, ◌≡◌, ◌↔◌, ◌⊎◌, refl, Bool, true, false, ◌&&◌, ◌||◌, Option, some, none, leb,
  if◌then◌else◌, arith, ltb, ℤ, pos, negsuc, pos_part, is_neg, exceeds,
}
use awg2_webui.Transform.{
  Hrange, awg_packet_buf_size, awg_packet_headroom, wg_init_size, wg_resp_size, wg_cookie_size,
}

-- The fields of `awg_config_t` that are checked.
pub record Params : Type 0 where
  pub jc : ℤ
  pub jmin : ℤ
  pub jmax : ℤ
  pub s1 : ℤ
  pub s2 : ℤ
  pub s3 : ℤ
  pub s4 : ℤ
  pub h1 : Hrange
  pub h2 : Hrange
  pub h3 : Hrange
  pub h4 : Hrange

-- The messages of the code, in order.
pub data ConfigError : Type 0 where
  jc_negative jmin_jmax_negative jmax_too_big jmax_below_jmin s1_range s2_range s3_range s4_range
        h_overlap :
      ConfigError

unfoldable pub hrange_overlaps : Hrange → Hrange → Bool
hrange_overlaps a b = leb a.min b.max && leb b.min a.max

-- `a < b`
unfoldable pub int_lt : ℤ → ℤ → Bool
int_lt (pos a) (pos b) = ltb a b
int_lt (pos a) (negsuc b) = false
int_lt (negsuc a) (pos b) = true
int_lt (negsuc a) (negsuc b) = ltb b a

-- `none` is success.
unfoldable pub config_validate : Params → Option ConfigError
config_validate p =
    if is_neg p.jc
    then some jc_negative
    else if is_neg p.jmin || is_neg p.jmax
    then some jmin_jmax_negative
    else if exceeds p.jmax 65534
    then some jmax_too_big
    else if exceeds p.jmax 0 && int_lt p.jmax p.jmin
    then some jmax_below_jmin
    else if is_neg p.s1 || exceeds p.s1 (awg_packet_buf_size - wg_init_size)
    then some s1_range
    else if is_neg p.s2 || exceeds p.s2 (awg_packet_buf_size - wg_resp_size)
    then some s2_range
    else if is_neg p.s3 || exceeds p.s3 (awg_packet_buf_size - wg_cookie_size)
    then some s3_range
    else if is_neg p.s4 || exceeds p.s4 awg_packet_headroom
    then some s4_range
    else if hrange_overlaps p.h1 p.h2
        || (hrange_overlaps p.h1 p.h3
            || (hrange_overlaps p.h1 p.h4
                || (hrange_overlaps p.h2 p.h3
                    || (hrange_overlaps p.h2 p.h4 || hrange_overlaps p.h3 p.h4))))
    then some h_overlap
    else none

-- `z` is a number from 0 to `m`.
abbrev pub Within : ℕ → ℤ → Type 0
Within m z = (z ≡ pos (pos_part z)) × (pos_part z ≤ m)

abbrev pub Apart : Hrange → Hrange → Type 0
Apart a b = (a.max < b.min) ⊎ (b.max < a.min)

-- The sizes fit their buffers, and no two ranges meet.
pub record IsSound (p : Params) : Type 0 where
  pub jc_nonneg : p.jc ≡ pos (pos_part p.jc)
  pub jmin_nonneg : p.jmin ≡ pos (pos_part p.jmin)
  pub jmax_within : Within 65534 p.jmax
  pub junk_order : (pos_part p.jmax ≡ 0) ⊎ (pos_part p.jmin ≤ pos_part p.jmax)
  pub s1_within : Within 1352 p.s1
  pub s2_within : Within 1408 p.s2
  pub s3_within : Within 1436 p.s3
  pub s4_within : Within 1500 p.s4
  pub apart12 : Apart p.h1 p.h2
  pub apart13 : Apart p.h1 p.h3
  pub apart14 : Apart p.h1 p.h4
  pub apart23 : Apart p.h2 p.h3
  pub apart24 : Apart p.h2 p.h4
  pub apart34 : Apart p.h3 p.h4

nonneg_of : (z : ℤ) → is_neg z ≡ false → z ≡ pos (pos_part z)
nonneg_of (pos n) h = refl
nonneg_of (negsuc n) h = cc

Within-of : (m : ℕ) (z : ℤ) → is_neg z ≡ false → exceeds z m ≡ false → Within m z
Within-of m (pos n) h k = (refl, ground arith)
Within-of m (negsuc n) h k = cc

Apart-of : (a b : Hrange) → hrange_overlaps a b ≡ false → Apart a b
unfolding hrange_overlaps
Apart-of a b h = ground arith

junk_order_of :
    (jmin jmax : ℤ)
    → is_neg jmin ≡ false
    → is_neg jmax ≡ false
    → (exceeds jmax 0 && int_lt jmax jmin) ≡ false
    → (pos_part jmax ≡ 0) ⊎ (pos_part jmin ≤ pos_part jmax)
unfolding int_lt
junk_order_of (pos a) (pos b) h k e = ground arith
junk_order_of (negsuc a) z h k e = cc
junk_order_of (pos a) (negsuc b) h k e = cc

guard_passed :
    (test : Bool) (x : ConfigError) (rest : Option ConfigError)
    → (if test then some x else rest) ≡ none
    → (test ≡ false) × (rest ≡ none)
guard_passed true x rest h = cc
guard_passed false x rest h = (refl, h)

or_false : (a : Bool) {b : Bool} → (a || b) ≡ false → (a ≡ false) × (b ≡ false)
or_false true h = cc
or_false false h = (refl, h)

IsSound-of_accepted : (p : Params) → config_validate p ≡ none → IsSound p
unfolding config_validate
IsSound-of_accepted p e =
    let g1 = guard_passed (is_neg p.jc) _ _ e in
    let g2 = guard_passed (is_neg p.jmin || is_neg p.jmax) _ _ g1.1 in
    let g3 = guard_passed (exceeds p.jmax 65534) _ _ g2.1 in
    let g4 = guard_passed (exceeds p.jmax 0 && int_lt p.jmax p.jmin) _ _ g3.1 in
    let g5 = guard_passed (is_neg p.s1 || exceeds p.s1 1352) _ _ g4.1 in
    let g6 = guard_passed (is_neg p.s2 || exceeds p.s2 1408) _ _ g5.1 in
    let g7 = guard_passed (is_neg p.s3 || exceeds p.s3 1436) _ _ g6.1 in
    let g8 = guard_passed (is_neg p.s4 || exceeds p.s4 1500) _ _ g7.1 in
    let g9 = guard_passed _ _ _ g8.1 in
    let j = or_false (is_neg p.jmin) g2.0 in
    let p1 = or_false (is_neg p.s1) g5.0 in
    let p2 = or_false (is_neg p.s2) g6.0 in
    let p3 = or_false (is_neg p.s3) g7.0 in
    let p4 = or_false (is_neg p.s4) g8.0 in
    let r1 = or_false (hrange_overlaps p.h1 p.h2) g9.0 in
    let r2 = or_false (hrange_overlaps p.h1 p.h3) r1.1 in
    let r3 = or_false (hrange_overlaps p.h1 p.h4) r2.1 in
    let r4 = or_false (hrange_overlaps p.h2 p.h3) r3.1 in
    let r5 = or_false (hrange_overlaps p.h2 p.h4) r4.1 in
    record {
      jc_nonneg = nonneg_of p.jc g1.0;
      jmin_nonneg = nonneg_of p.jmin j.0;
      jmax_within = Within-of 65534 p.jmax j.1 g3.0;
      junk_order = junk_order_of p.jmin p.jmax j.0 j.1 g4.0;
      s1_within = Within-of 1352 p.s1 p1.0 p1.1;
      s2_within = Within-of 1408 p.s2 p2.0 p2.1;
      s3_within = Within-of 1436 p.s3 p3.0 p3.1;
      s4_within = Within-of 1500 p.s4 p4.0 p4.1;
      apart12 = Apart-of p.h1 p.h2 r1.0;
      apart13 = Apart-of p.h1 p.h3 r2.0;
      apart14 = Apart-of p.h1 p.h4 r3.0;
      apart23 = Apart-of p.h2 p.h3 r4.0;
      apart24 = Apart-of p.h2 p.h4 r5.0;
      apart34 = Apart-of p.h3 p.h4 r5.1;
    }

Within-tests : (m : ℕ) (z : ℤ) → Within m z → (is_neg z || exceeds z m) ≡ false
Within-tests m (pos n) h = ground arith
Within-tests m (negsuc n) h = cc

nonneg_test : (z : ℤ) → z ≡ pos (pos_part z) → is_neg z ≡ false
nonneg_test (pos n) h = refl
nonneg_test (negsuc n) h = cc

overlap_test : (a b : Hrange) → Apart a b → hrange_overlaps a b ≡ false
unfolding hrange_overlaps
overlap_test a b h = ground arith

order_test :
    (jmin jmax : ℤ)
    → jmin ≡ pos (pos_part jmin)
    → jmax ≡ pos (pos_part jmax)
    → (pos_part jmax ≡ 0) ⊎ (pos_part jmin ≤ pos_part jmax)
    → (exceeds jmax 0 && int_lt jmax jmin) ≡ false
unfolding int_lt
order_test (pos a) (pos b) h k o = ground arith
order_test (negsuc a) z h k o = cc
order_test (pos a) (negsuc b) h k o = cc

accepted_of_sound : (p : Params) → IsSound p → config_validate p ≡ none
unfolding config_validate
accepted_of_sound p s =
    let w = Within-tests 65534 p.jmax s.jmax_within in
    rw (
      nonneg_test p.jc s.jc_nonneg,
      nonneg_test p.jmin s.jmin_nonneg,
      nonneg_test p.jmax s.jmax_within.0,
      (or_false (is_neg p.jmax) w).1,
      order_test p.jmin p.jmax s.jmin_nonneg s.jmax_within.0 s.junk_order,
      Within-tests 1352 p.s1 s.s1_within,
      Within-tests 1408 p.s2 s.s2_within,
      Within-tests 1436 p.s3 s.s3_within,
      Within-tests 1500 p.s4 s.s4_within,
      overlap_test p.h1 p.h2 s.apart12,
      overlap_test p.h1 p.h3 s.apart13,
      overlap_test p.h1 p.h4 s.apart14,
      overlap_test p.h2 p.h3 s.apart23,
      overlap_test p.h2 p.h4 s.apart24,
      overlap_test p.h3 p.h4 s.apart34,
    )

-- `config_validate` accepts exactly the sound parameters: no size is negative, each padding leaves
-- room for its message in the 1500-byte buffers (S4: at most 1500), `jmax` is below 65535 and not
-- below `jmin` unless it is 0, and no two H ranges meet.
pub config_validate_iff : (p : Params) → (config_validate p ≡ none) ↔ IsSound p
config_validate_iff p = (IsSound-of_accepted p, accepted_of_sound p)
