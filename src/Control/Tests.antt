-- ===== src/Control/Tests.antt =====
-- Tests of the timer's accounting and of its theorems.
use awg2_webui.Base.{ℕ, zero, suc, ◌≡◌, refl, true, false, ◌∷◌, ◌++◌, replicate, arith, inr}
use awg2_webui.Control.{Bounds, Proxy, Window, bounds, run, started}
use awg2_webui.Control.Silence.{IsTrying, run-asks_reconnect, run-exits}
use awg2_webui.Control.Answered.{IsAnswered, run-answered}

abbrev proxy : Proxy
proxy = record { has_remote_fd = true; src_port_drift = true; auto_src_port = true }

abbrev sending : Window
sending = record { active = true; remote_rx = false }

abbrev quiet : Window
quiet = record { active = false; remote_rx = false }

abbrev answered : Window
answered = record { active = true; remote_rx = true }

-- 180 s, 60 s and 600 s, the defaults.
abbrev defaults : Bounds
defaults = record {
  checks_needed = 36;
  silent_checks_needed = 12;
  exit_enabled = true;
  exit_checks_needed = 120;
  warn_checks = 6;
}

bounds-defaults : bounds 180 60 600 ≡ defaults
unfolding bounds
bounds-defaults = refl

abbrev no_exit : Bounds
no_exit = record {
  checks_needed = 36;
  silent_checks_needed = 12;
  exit_enabled = false;
  exit_checks_needed = 0;
  warn_checks = 6;
}

-- After a reconnect the count starts again, and an answer clears it.
eleven_are_too_few : (run defaults proxy started (replicate 11 sending)).reconnect_needed ≡ false
unfolding run
eleven_are_too_few = refl

an_answer_clears :
    (run defaults proxy started
      (replicate 11 sending ++ answered ∷ replicate 11 sending)).reconnect_needed
    ≡ false
unfolding run
an_answer_clears = refl

sending-IsTrying : (k n : ℕ) → IsTrying k (replicate n sending)
sending-IsTrying k zero = tt
sending-IsTrying k (suc n) = (refl, (omega arith, sending-IsTrying 0 n))

-- Three quiet ticks first, which are within the grace period.
run-asks_reconnect_example :
    (run defaults proxy started (quiet ∷ quiet ∷ quiet ∷ replicate 9 sending)).reconnect_needed
    ≡ true
run-asks_reconnect_example =
    run-asks_reconnect defaults proxy started (quiet ∷ quiet ∷ quiet ∷ replicate 9 sending) refl
      refl (refl, (omega arith, (refl, (omega arith, (refl, (omega arith, sending-IsTrying 3 9))))))
      (omega arith) (omega arith) (inr (omega arith))

run-exits_example : (run defaults proxy started (replicate 120 sending)).exited ≡ true
run-exits_example =
    run-exits defaults proxy started (replicate 120 sending) refl refl (sending-IsTrying 0 120)
      (omega arith) (omega arith)

-- The first quiet ticks count as silence too: without any traffic, the reconnect is asked for at the
-- 12th tick, long before the 36 of the inactivity timeout.
quiet_is_silence : (run defaults proxy started (replicate 12 quiet)).reconnect_needed ≡ true
unfolding run
quiet_is_silence = refl

silent_then_answered-IsAnswered :
    IsAnswered 12 0 (replicate 11 quiet ++ answered ∷ replicate 11 sending)
silent_then_answered-IsAnswered = ground arith

run-answered_example :
    ((run defaults proxy started (replicate 11 quiet ++ answered ∷ replicate 11 sending)).exited
      ≡ false)
    × ((run defaults proxy started
          (replicate 11 quiet ++ answered ∷ replicate 11 sending)).reconnect_needed
        ≡ false)
run-answered_example =
    run-answered defaults proxy 12 (replicate 11 quiet ++ answered ∷ replicate 11 sending)
      (omega arith, omega arith, inr (omega arith)) silent_then_answered-IsAnswered
