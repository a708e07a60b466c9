-- ===== src/Link/Backoff.antt =====
-- The delays of src/proxy_startup.c and of the reconnect in src/proxy.c, and how both loops end.
use std.Path.{subst}
use awg2_webui.Base.{
  ℕ, zero, suc, ◌+◌, ◌-◌, ◌*◌, ◌≤◌, ◌<◌, ◌≡◌, refl, ap, sym, true, false, ◌&&◌, Option, some, none,
  List, ◌∷◌, ◌++◌, ltb, leb, if_false, length, replicate, arith, All, inl, inr, ◌⊎◌,
}
use awg2_webui.Link.{doubled, startup_delay, Startup, linked, gave_up, startup_from}

-- Seconds between 1 and a limit.
abbrev pub IsDelay : ℕ → ℕ → Type 0
IsDelay limit s = (1 ≤ s) × (s ≤ limit)

doubled_pos : (left delay : ℕ) → 1 ≤ delay → 1 ≤ doubled left delay
unfolding doubled
doubled_pos zero delay h = h
doubled_pos (suc left) delay h = ground (arith, doubled_pos left (delay * 2) (omega (arith, h)))

startup_delay_bounds : (attempt : ℕ) → IsDelay 60 (startup_delay attempt)
unfolding startup_delay
startup_delay_bounds attempt =
    let low : 1 ≤ doubled (attempt - 1) 1 = doubled_pos (attempt - 1) 1 (omega arith) in
    (ground (arith, low), ground arith)

module _ (max_retries : ℕ) where
  more_left :
      (attempt left : ℕ)
      → (max_retries ≡ 0) ⊎ (attempt + suc left < max_retries)
      → (ltb 0 max_retries && leb max_retries (attempt + 1)) ≡ false
  more_left attempt left (inl e) = ground arith
  more_left attempt left (inr h) = ground arith

  -- An attempt that fails, with more to come.
  one_more :
      (attempt : ℕ) (rs : List (Option ℕ))
      → (ltb 0 max_retries && leb max_retries (attempt + 1)) ≡ false
      → startup_from max_retries attempt (none ∷ rs) ≡ (
        (startup_from max_retries (attempt + 1) rs).0,
        startup_delay (attempt + 1) ∷ (startup_from max_retries (attempt + 1) rs).1,
      )
  unfolding startup_from
  one_more attempt rs h = if_false _ h _ _

  -- The loop ends so, after that many delays.
  Ends : ℕ → List (Option ℕ) → ℕ → Startup → Type 0
  Ends attempt rs n end =
      let x = startup_from max_retries attempt rs in
      (x.0 ≡ end) × ((length x.1 ≡ n) × All (IsDelay 60) x.1)

  Ends-suc :
      (attempt : ℕ) (rs : List (Option ℕ)) (n : ℕ) (end : Startup)
      → (ltb 0 max_retries && leb max_retries (attempt + 1)) ≡ false
      → Ends (attempt + 1) rs n end
      → Ends attempt (none ∷ rs) (suc n) end
  unfolding Ends
  Ends-suc attempt rs n end h (same, (len, delays)) =
      let x : Startup × List ℕ = (
        (startup_from max_retries (attempt + 1) rs).0,
        startup_delay (attempt + 1) ∷ (startup_from max_retries (attempt + 1) rs).1,
      ) in
      subst (λ (y : Startup × List ℕ). (y.0 ≡ end) × ((length y.1 ≡ suc n) × All (IsDelay 60) y.1))
        (sym (one_more attempt rs h))
        (same, (ap suc len, (startup_delay_bounds (attempt + 1), delays)))

  linked_from :
      (n attempt fd : ℕ) (rs : List (Option ℕ))
      → (max_retries ≡ 0) ⊎ (attempt + n < max_retries)
      → Ends attempt (replicate n none ++ (some fd ∷ rs)) n (linked fd)
  linked_from zero attempt fd rs h = unfold Ends in unfold startup_from in (refl, (refl, tt))
  linked_from (suc n) attempt fd rs h =
      Ends-suc attempt (replicate n none ++ (some fd ∷ rs)) n (linked fd) (more_left attempt n h)
        (linked_from n (attempt + 1) fd rs (later attempt n h))
    where
      later :
          (attempt n : ℕ)
          → (max_retries ≡ 0) ⊎ (attempt + suc n < max_retries)
          → (max_retries ≡ 0) ⊎ (attempt + 1 + n < max_retries)
      later attempt n (inl e) = inl e
      later attempt n (inr k) = inr (omega arith)

  gave_up_from :
      (n attempt : ℕ) (rs : List (Option ℕ))
      → attempt + suc n ≡ max_retries
      → Ends attempt (replicate (suc n) none ++ rs) n (gave_up max_retries)
  gave_up_from zero attempt rs h =
      let last : (ltb 0 max_retries && leb max_retries (attempt + 1)) ≡ true = ground arith in
      unfold Ends in unfold startup_from in rw (last) (ap gave_up (omega (arith, h)), (refl, tt))
  gave_up_from (suc n) attempt rs h =
      Ends-suc attempt (replicate (suc n) none ++ rs) n (gave_up max_retries) (ground (arith, h))
        (gave_up_from n (attempt + 1) rs (omega (arith, h)))

-- The initial connect, when `n` dials fail and the next one does not: the loop ends with its socket after `n`
-- delays of 1 to 60 seconds, if the number of retries is unlimited or above `n`.
pub startup_from-linked :
    (max_retries n fd : ℕ) (rs : List (Option ℕ))
    → (max_retries ≡ 0) ⊎ (n < max_retries)
    → let x = startup_from max_retries 0 (replicate n none ++ (some fd ∷ rs)) in
      (x.0 ≡ linked fd) × ((length x.1 ≡ n) × All (IsDelay 60) x.1)
unfolding Ends
startup_from-linked max_retries n fd rs h = linked_from max_retries n 0 fd rs (from_0 h)
  where
    from_0 : (max_retries ≡ 0) ⊎ (n < max_retries) → (max_retries ≡ 0) ⊎ (0 + n < max_retries)
    from_0 (inl e) = inl e
    from_0 (inr k) = inr (omega arith)

-- The initial connect ends when a limited number of dials have all failed: it gives up after exactly that
-- many, with one delay of 1 to 60 seconds less.
pub startup_from-gave_up :
    (n : ℕ) (rs : List (Option ℕ))
    → let x = startup_from (suc n) 0 (replicate (suc n) none ++ rs) in
      (x.0 ≡ gave_up (suc n)) × ((length x.1 ≡ n) × All (IsDelay 60) x.1)
unfolding Ends
startup_from-gave_up n rs = gave_up_from (suc n) n 0 rs (omega arith)
