-- ===== src/Control/Bounded.antt =====
-- The counters of the timer and what they trigger at (src/proxy_control.c).
use awg2_webui.Base.{ℕ, ◌≤◌, ◌<◌, ◌≡◌, true, false, List, [], ◌∷◌, arith, inl, inr, ◌⊎◌}
use awg2_webui.Control.{
  Bounds, Control, Proxy, Window, trigger_recovery_reconnect, observe, healthy, broken_path, idle,
  timer_tick, run, started, bounds,
}

-- The counters are below what they trigger at, unless the process has ended; silence is counted as a
-- whole at least as long as since the last reconnect.
abbrev pub IsBounded : Bounds → Control → Type 0
IsBounded b c =
    (c.exited ≡ true)
    ⊎ ((c.remote_silent_count < b.silent_checks_needed)
        × (c.inactive_count < b.checks_needed)
        × (c.remote_silent_count ≤ c.remote_silent_total)
        × ((b.exit_enabled ≡ false) ⊎ (c.remote_silent_total < b.exit_checks_needed)))

-- What the computed bounds are: none of them is 0 when it is in force.
abbrev pub IsPositive : Bounds → Type 0
IsPositive b =
    (0 < b.silent_checks_needed)
    × (0 < b.checks_needed)
    × ((b.exit_enabled ≡ false) ⊎ (0 < b.exit_checks_needed))

bounds-IsPositive :
    (timeout_secs silent_secs exit_secs : ℕ)
    → IsPositive (bounds timeout_secs silent_secs exit_secs)
unfolding bounds
bounds-IsPositive timeout_secs silent_secs exit_secs = ground arith

tick-IsBounded :
    (b : Bounds) (p : Proxy) (c : Control) (w : Window)
    → IsPositive b
    → IsBounded b c
    → IsBounded b (timer_tick b p (observe w.active w.remote_rx c))
unfolding timer_tick observe healthy broken_path idle trigger_recovery_reconnect
tick-IsBounded b p c w pos inv = ground arith

run_from-IsBounded :
    (b : Bounds) (p : Proxy) (c : Control) (ws : List Window)
    → IsPositive b
    → IsBounded b c
    → IsBounded b (run b p c ws)
unfolding run
run_from-IsBounded b p c [] positive inv = inv
run_from-IsBounded b p c (w ∷ ws) positive inv =
    run_from-IsBounded b p (timer_tick b p (observe w.active w.remote_rx c)) ws positive
      (tick-IsBounded b p c w positive inv)

-- However the packets come, the counters of the loop stay below the bounds computed from its arguments:
-- a reconnect or the exit is never missed by a counter that runs past its bound.
pub run-IsBounded :
    (timeout_secs silent_secs exit_secs : ℕ) (p : Proxy) (ws : List Window)
    → IsBounded
        (bounds timeout_secs silent_secs exit_secs)
        (run (bounds timeout_secs silent_secs exit_secs) p started ws)
run-IsBounded timeout_secs silent_secs exit_secs p ws =
    run_from-IsBounded (bounds timeout_secs silent_secs exit_secs) p started ws
      (bounds-IsPositive timeout_secs silent_secs exit_secs)
      (started-IsBounded (bounds timeout_secs silent_secs exit_secs)
        (bounds-IsPositive timeout_secs silent_secs exit_secs))
  where
    started-IsBounded : (b : Bounds) → IsPositive b → IsBounded b started
    started-IsBounded b (silent, checks, inl off) = inr (silent, checks, omega arith, inl off)
    started-IsBounded b (silent, checks, inr exit) = inr (silent, checks, omega arith, inr exit)

tick-no_exit :
    (b : Bounds) (p : Proxy) (c : Control) (w : Window)
    → b.exit_enabled ≡ false
    → c.exited ≡ false
    → (timer_tick b p (observe w.active w.remote_rx c)).exited ≡ false
unfolding timer_tick observe healthy broken_path idle trigger_recovery_reconnect
tick-no_exit b p c w off alive = ground arith

-- With the exit off the process is never ended, however long the silence.
pub run-no_exit :
    (b : Bounds) (p : Proxy) (c : Control) (ws : List Window)
    → b.exit_enabled ≡ false
    → c.exited ≡ false
    → (run b p c ws).exited ≡ false
unfolding run
run-no_exit b p c [] off alive = alive
run-no_exit b p c (w ∷ ws) off alive =
    run-no_exit b p (timer_tick b p (observe w.active w.remote_rx c)) ws off
      (tick-no_exit b p c w off alive)
