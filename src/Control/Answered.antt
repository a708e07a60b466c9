-- ===== src/Control/Answered.antt =====
-- What a remote end that answers often enough leads to (src/proxy_control.c).
use awg2_webui.Base.{
  ℕ, ◌+◌, ◌≤◌, ◌<◌, ◌≡◌, refl, false, List, [], ◌∷◌, if◌then◌else◌, arith, inl, inr, ◌⊎◌,
}
use awg2_webui.Control.{
  Bounds, Control, Proxy, Window, trigger_recovery_reconnect, observe, healthy, broken_path, idle,
  timer_tick, run, started,
}

-- The ticks without a packet from the remote end, after a window.
abbrev pub silent_after : ℕ → Window → ℕ
silent_after k w = if w.remote_rx then 0 else k + 1

-- Windows that are never `n` in a row without a packet from the remote end, after `k` such ones.
abbrev pub IsAnswered : ℕ → ℕ → List Window → Type 0
IsAnswered n k [] = Unit
IsAnswered n k (w ∷ ws) = (silent_after k w < n) × IsAnswered n (silent_after k w) ws

-- `n` ticks are no more than what any of the counters triggers at.
abbrev pub IsWithin : ℕ → Bounds → Type 0
IsWithin n b =
    (n ≤ b.silent_checks_needed)
    × (n ≤ b.checks_needed)
    × ((b.exit_enabled ≡ false) ⊎ (n ≤ b.exit_checks_needed))

-- Nothing was triggered, and no counter is ahead of the ticks without an answer.
abbrev IsCalm : ℕ → Control → Type 0
IsCalm k c =
    (c.exited ≡ false)
    × (c.reconnect_needed ≡ false)
    × (c.remote_silent_count ≤ k)
    × (c.remote_silent_total ≤ k)
    × (c.inactive_count ≤ k)

tick-IsCalm :
    (b : Bounds) (p : Proxy) (n k : ℕ) (c : Control) (w : Window)
    → IsWithin n b
    → silent_after k w < n
    → IsCalm k c
    → IsCalm (silent_after k w) (timer_tick b p (observe w.active w.remote_rx c))
unfolding timer_tick observe healthy broken_path idle trigger_recovery_reconnect
tick-IsCalm b p n k c w (silent, checks, inl off) soon calm = ground arith
tick-IsCalm b p n k c w (silent, checks, inr exit) soon calm = ground arith

run_from-IsCalm :
    (b : Bounds) (p : Proxy) (n k : ℕ) (c : Control) (ws : List Window)
    → IsWithin n b
    → IsAnswered n k ws
    → IsCalm k c
    → ((run b p c ws).exited ≡ false) × ((run b p c ws).reconnect_needed ≡ false)
unfolding run
run_from-IsCalm b p n k c [] within answered (alive, kept, silent, total, idle_count) =
    (alive, kept)
run_from-IsCalm b p n k c (w ∷ ws) within (soon, answered) calm =
    run_from-IsCalm b p n (silent_after k w) (timer_tick b p (observe w.active w.remote_rx c)) ws
      within answered (tick-IsCalm b p n k c w within soon calm)

-- While the windows without a packet from the remote end are never `n` in a row, the timer neither asks
-- for a reconnect nor ends the process, whatever the client sends; `n` is no more than the ticks of
-- silence and of inactivity that ask for a reconnect, and than those that end the process when the exit
-- is on.
pub run-answered :
    (b : Bounds) (p : Proxy) (n : ℕ) (ws : List Window)
    → IsWithin n b
    → IsAnswered n 0 ws
    → ((run b p started ws).exited ≡ false) × ((run b p started ws).reconnect_needed ≡ false)
run-answered b p n ws within answered =
    run_from-IsCalm b p n 0 started ws within answered
      (refl, refl, omega arith, omega arith, omega arith)
