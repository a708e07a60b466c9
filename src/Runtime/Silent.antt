-- ===== src/Runtime/Silent.antt =====
-- `compute_remote_silent_timeout` of src/config_runtime.c, and what it means for the timer of
-- src/proxy_control.c.
use awg2_webui.Base.{
  ℕ, ◌*◌, ◌/◌, ◌^◌, ◌≤◌, ◌<◌, ◌≡◌, refl, Bool, true, false, ◌&&◌, ◌||◌, List, ltb, leb,
  if◌then◌else◌, length, ℤ, pos, pos_part, exceeds, u32, arith, Bool-cases, inl, inr,
}
use awg2_webui.Control.{Proxy, Window, bounds, run, started}
use awg2_webui.Control.Silence.{IsTrying, run-asks_reconnect}

-- `int t = ka * 4; if (t < 30) t = 30;`, the product written as wrapping around.
unfoldable pub four_times : ℕ → ℕ
four_times ka = let t = u32 (ka * 4) in if leb (2 ^ 31) t || ltb t 30 then 30 else t

-- The cap, where the exit is on.
unfoldable pub capped : ℤ → ℕ → ℕ
capped exit_secs t =
    let half = pos_part exit_secs / 2 in
    let cap = if ltb half 30 then 30 else half in
    if exceeds exit_secs 0 && ltb cap t then cap else t

unfoldable pub compute_remote_silent_timeout : ℤ → Bool → ℤ → ℤ → ℕ
unfolding four_times capped
compute_remote_silent_timeout explicit_secs have_keepalive keepalive exit_secs =
    let ka = if have_keepalive && exceeds keepalive 0 then pos_part keepalive else 15 in
    if exceeds explicit_secs 0 then pos_part explicit_secs else capped exit_secs (four_times ka)

four_times_floor : (ka : ℕ) → 30 ≤ four_times ka
unfolding four_times
four_times_floor ka = ground arith

capped_bounds :
    (exit_secs t : ℕ)
    → 30 ≤ t
    → 60 ≤ exit_secs
    → (30 ≤ capped (pos exit_secs) t) × (capped (pos exit_secs) t ≤ exit_secs / 2)
unfolding capped
capped_bounds exit_secs t h k = elim (Bool-cases (ltb (exit_secs / 2) 30)) [
  | inl e ↦ absurd (ground arith)
  | inr e ↦ ground (arith, e)
]

-- The timeout that is in force where none is configured, for an exit timeout of a minute at least.
computed_bounds :
    (explicit_secs keepalive : ℤ) (have_keepalive : Bool) (exit_secs : ℕ)
    → exceeds explicit_secs 0 ≡ false
    → 60 ≤ exit_secs
    → let t =
        compute_remote_silent_timeout explicit_secs have_keepalive keepalive (pos exit_secs) in
      (30 ≤ t) × (t ≤ exit_secs / 2)
unfolding compute_remote_silent_timeout
computed_bounds explicit_secs keepalive have_keepalive exit_secs h k = rw (h) (
    capped_bounds exit_secs _
      (four_times_floor (if have_keepalive && exceeds keepalive 0 then pos_part keepalive else 15))
      k)

bounds_lem :
    (timeout t exit_secs : ℕ)
    → 30 ≤ t
    → t ≤ exit_secs / 2
    → let b = bounds timeout t exit_secs in
      (0 < b.silent_checks_needed) × (2 * b.silent_checks_needed ≤ b.exit_checks_needed)
unfolding bounds
bounds_lem timeout t exit_secs h k =
    let some_silent : ltb (t / 5) 1 ≡ false = ground arith in
    let some_exit : ltb (exit_secs / 5) 1 ≡ false = ground arith in
    rw (some_silent, some_exit) ground arith

-- Where no timeout is configured for a silent remote end, and the exit is on with a minute at least: from
-- the start, the ticks of the timeout that the keepalive gives, each without a packet from the remote
-- end and with the client not quiet for longer than the grace period, ask for a reconnect; and there is room
-- for as many ticks again before the exit, as the comment on the cap says.
pub run-compute_remote_silent_timeout :
    (explicit_secs keepalive : ℤ) (have_keepalive : Bool) (exit_secs timeout : ℕ) (p : Proxy)
    (ws : List Window)
    → exceeds explicit_secs 0 ≡ false
    → 60 ≤ exit_secs
    → p.has_remote_fd ≡ true
    → IsTrying 0 ws
    → let b =
        bounds timeout
          (compute_remote_silent_timeout explicit_secs have_keepalive keepalive (pos exit_secs))
          exit_secs in
      length ws ≡ b.silent_checks_needed
      → ((run b p started ws).reconnect_needed ≡ true)
        × (2 * b.silent_checks_needed ≤ b.exit_checks_needed)
run-compute_remote_silent_timeout explicit_secs keepalive have_keepalive exit_secs timeout p ws h k
      fd trying len =
    let t : ℕ =
      compute_remote_silent_timeout explicit_secs have_keepalive keepalive (pos exit_secs) in
    let (low, high) = computed_bounds explicit_secs keepalive have_keepalive exit_secs h k in
    let (some_checks, room) = bounds_lem timeout t exit_secs low high in
    (
      run-asks_reconnect (bounds timeout t exit_secs) p started ws refl fd trying some_checks
          (omega (arith, len)) (inr (omega (arith, len, some_checks, room))),
      room,
    )
