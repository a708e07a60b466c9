-- ===== src/Control/Silence.antt =====
-- What a silent remote end leads to (src/proxy_control.c).
use awg2_webui.Base.{
  ℕ, suc, ◌+◌, ◌≤◌, ◌<◌, ◌≡◌, sym, true, false, List, [], ◌∷◌, leb, if◌then◌else◌, length, arith,
  inl, inr, ◌⊎◌, Bool-cases,
}
use std.Path.{subst}
use awg2_webui.Control.{
  Bounds, Control, Proxy, Window, client_active_grace_checks, trigger_recovery_reconnect, observe,
  healthy, broken_path, idle, timer_tick, run,
}

-- The idle ticks of the client after a window.
abbrev pub idle_after : ℕ → Window → ℕ
idle_after k w = if w.active then 0 else k + 1

-- Windows without a packet from the remote end, in none of which the client has been quiet for longer
-- than the grace period.
abbrev pub IsTrying : ℕ → List Window → Type 0
IsTrying k [] = Unit
IsTrying k (w ∷ ws) =
    (w.remote_rx ≡ false)
    × ((idle_after k w ≤ client_active_grace_checks) × IsTrying (idle_after k w) ws)

abbrev tick : Bounds → Proxy → Control → Window → Control
tick b p c w = timer_tick b p (observe w.active w.remote_rx c)

tick-reconnect_needed :
    (b : Bounds) (p : Proxy) (c : Control) (w : Window)
    → c.reconnect_needed ≡ true
    → (tick b p c w).reconnect_needed ≡ true
unfolding timer_tick observe healthy broken_path idle trigger_recovery_reconnect
tick-reconnect_needed b p c w h = ground arith

run-reconnect_needed :
    (b : Bounds) (p : Proxy) (c : Control) (ws : List Window)
    → c.reconnect_needed ≡ true
    → (run b p c ws).reconnect_needed ≡ true
unfolding run
run-reconnect_needed b p c [] h = h
run-reconnect_needed b p c (w ∷ ws) h =
    run-reconnect_needed b p (tick b p c w) ws (tick-reconnect_needed b p c w h)

tick-exited :
    (b : Bounds) (p : Proxy) (c : Control) (w : Window)
    → c.exited ≡ true
    → (tick b p c w).exited ≡ true
unfolding timer_tick observe
tick-exited b p c w h = ground arith

run-exited :
    (b : Bounds) (p : Proxy) (c : Control) (ws : List Window)
    → c.exited ≡ true
    → (run b p c ws).exited ≡ true
unfolding run
run-exited b p c [] h = h
run-exited b p c (w ∷ ws) h = run-exited b p (tick b p c w) ws (tick-exited b p c w h)

module _ (b : Bounds) (p : Proxy) (c : Control) (w : Window) (alive : c.exited ≡ false)
    (silent : w.remote_rx ≡ false)
    (grace : idle_after c.client_idle_ticks w ≤ client_active_grace_checks) where
  tick-idle : (tick b p c w).client_idle_ticks ≡ idle_after c.client_idle_ticks w
  unfolding timer_tick observe broken_path trigger_recovery_reconnect
  tick-idle = ground arith

  tick-total : (tick b p c w).remote_silent_total ≡ c.remote_silent_total + 1
  unfolding timer_tick observe broken_path trigger_recovery_reconnect
  tick-total = ground arith

  tick-exit :
      b.exit_enabled ≡ true
      → b.exit_checks_needed ≤ c.remote_silent_total + 1
      → (tick b p c w).exited ≡ true
  unfolding timer_tick observe broken_path trigger_recovery_reconnect
  tick-exit on reached = ground arith

  tick-alive :
      (b.exit_enabled ≡ false) ⊎ (c.remote_silent_total + 1 < b.exit_checks_needed)
      → (tick b p c w).exited ≡ false
  unfolding timer_tick observe broken_path trigger_recovery_reconnect
  tick-alive (inl off) = ground arith
  tick-alive (inr below) = ground arith

  tick-reconnect :
      (b.exit_enabled ≡ false) ⊎ (c.remote_silent_total + 1 < b.exit_checks_needed)
      → p.has_remote_fd ≡ true
      → b.silent_checks_needed ≤ c.remote_silent_count + 1
      → (tick b p c w).reconnect_needed ≡ true
  unfolding timer_tick observe broken_path trigger_recovery_reconnect
  tick-reconnect (inl off) fd reached = ground arith
  tick-reconnect (inr below) fd reached = ground arith

  tick-count :
      c.remote_silent_count + 1 < b.silent_checks_needed
      → (tick b p c w).remote_silent_count ≡ c.remote_silent_count + 1
  unfolding timer_tick observe broken_path trigger_recovery_reconnect
  tick-count below = ground arith

step_room :
    (b : Bounds) (n total total' : ℕ)
    → total' ≡ total + 1
    → (b.exit_enabled ≡ false) ⊎ (total + suc n < b.exit_checks_needed)
    → (b.exit_enabled ≡ false) ⊎ (total' + n < b.exit_checks_needed)
step_room b n total total' e (inl off) = inl off
step_room b n total total' e (inr below) = inr (omega arith)

first_room :
    (b : Bounds) (n total : ℕ)
    → (b.exit_enabled ≡ false) ⊎ (total + suc n < b.exit_checks_needed)
    → (b.exit_enabled ≡ false) ⊎ (total + 1 < b.exit_checks_needed)
first_room b n total (inl off) = inl off
first_room b n total (inr below) = inr (omega arith)

-- Silence of the remote end, while the client has not been quiet for longer than the grace period,
-- asks for a reconnect once it has lasted for `silent_checks_needed` ticks, counted with the ticks of
-- the state before; the remote socket is open, and the exit is off or further away.
pub run-asks_reconnect :
    (b : Bounds) (p : Proxy) (c : Control) (ws : List Window)
    → c.exited ≡ false
    → p.has_remote_fd ≡ true
    → IsTrying c.client_idle_ticks ws
    → c.remote_silent_count < b.silent_checks_needed
    → b.silent_checks_needed ≤ c.remote_silent_count + length ws
    → (b.exit_enabled ≡ false) ⊎ (c.remote_silent_total + length ws < b.exit_checks_needed)
    → (run b p c ws).reconnect_needed ≡ true
unfolding run
run-asks_reconnect b p c [] alive fd trying below reached room = absurd (omega arith)
run-asks_reconnect b p c (w ∷ ws) alive fd (rx, (grace, trying)) below reached room =
    elim (Bool-cases (leb b.silent_checks_needed (c.remote_silent_count + 1))) [
      | inl now ↦ run-reconnect_needed b p (tick b p c w) ws (
          tick-reconnect b p c w alive rx grace
            (first_room b (length ws) c.remote_silent_total room) fd (ground arith))
      | inr later ↦
          let next : c.remote_silent_count + 1 < b.silent_checks_needed = ground arith in
          let count : (tick b p c w).remote_silent_count ≡ c.remote_silent_count + 1 =
            tick-count b p c w alive rx grace next in
          let total : (tick b p c w).remote_silent_total ≡ c.remote_silent_total + 1 =
            tick-total b p c w alive rx grace in
          run-asks_reconnect b p (tick b p c w) ws
            (tick-alive b p c w alive rx grace
              (first_room b (length ws) c.remote_silent_total room))
            fd (subst (λ k. IsTrying k ws) (sym (tick-idle b p c w alive rx grace)) trying)
            (omega (arith, count, next)) (omega (arith, count, reached))
            (step_room b (length ws) c.remote_silent_total (tick b p c w).remote_silent_total total
              room)
    ]

-- When the exit is on, silence of the remote end, while the client has not been quiet for longer than
-- the grace period, ends the process once it has lasted for `exit_checks_needed` ticks, counted with the
-- ticks of the state before.
pub run-exits :
    (b : Bounds) (p : Proxy) (c : Control) (ws : List Window)
    → c.exited ≡ false
    → b.exit_enabled ≡ true
    → IsTrying c.client_idle_ticks ws
    → c.remote_silent_total < b.exit_checks_needed
    → b.exit_checks_needed ≤ c.remote_silent_total + length ws
    → (run b p c ws).exited ≡ true
unfolding run
run-exits b p c [] alive on trying below reached = absurd (omega arith)
run-exits b p c (w ∷ ws) alive on (rx, (grace, trying)) below reached =
    elim (Bool-cases (leb b.exit_checks_needed (c.remote_silent_total + 1))) [
      | inl now ↦
          run-exited b p (tick b p c w) ws (tick-exit b p c w alive rx grace on (ground arith))
      | inr later ↦
          let next : c.remote_silent_total + 1 < b.exit_checks_needed = ground arith in
          let total : (tick b p c w).remote_silent_total ≡ c.remote_silent_total + 1 =
            tick-total b p c w alive rx grace in
          run-exits b p (tick b p c w) ws (tick-alive b p c w alive rx grace (inr next)) on
            (subst (λ k. IsTrying k ws) (sym (tick-idle b p c w alive rx grace)) trying)
            (omega (arith, total, next)) (omega (arith, total, reached))
    ]
