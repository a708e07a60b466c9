-- ===== src/Control.antt =====
-- src/proxy_control.c and src/proxy_reconnect.c: the accounting of the 5-second timer, which asks for
-- a reconnect or ends the process, and the reconnect itself. Descriptors, epoll and the log are not
-- modelled: a tick is one firing of the timer, and a shut down socket is the request that is left.
pub mod Silence
pub mod Bounded
pub mod Answered
mod Tests
use awg2_webui.Base.{
  ℕ, zero, suc, ◌+◌, ◌*◌, ◌/◌, Bool, true, false, not, ◌&&◌, Option, some, none, List, [], ◌∷◌, ltb,
  leb, ◌==◌, if◌then◌else◌,
}

-- `CLIENT_ACTIVE_GRACE_CHECKS`
abbrev pub client_active_grace_checks : ℕ
client_active_grace_checks = 12

abbrev at_least_one : ℕ → ℕ
at_least_one n = if ltb n 1 then 1 else n

-- The bounds that `proxy_control_loop` computes from its arguments, in ticks. `exit_enabled` is
-- `silent_exit_secs > 0`.
pub record Bounds : Type 0 where
  pub checks_needed : ℕ
  pub silent_checks_needed : ℕ
  pub exit_enabled : Bool
  pub exit_checks_needed : ℕ
  pub warn_checks : ℕ

-- The arguments are not negative.
unfoldable pub bounds : ℕ → ℕ → ℕ → Bounds
bounds timeout_secs silent_secs silent_exit_secs = record {
  checks_needed = at_least_one (timeout_secs / 5);
  silent_checks_needed = at_least_one (silent_secs / 5);
  exit_enabled = ltb 0 silent_exit_secs;
  exit_checks_needed =
      if ltb 0 silent_exit_secs && ltb (silent_exit_secs / 5) 1 then 1 else silent_exit_secs / 5;
  warn_checks = at_least_one (at_least_one (silent_secs / 5) / 2);
}

-- The local counters of the loop, and the fields of `proxy_t` that it shares with the other threads.
pub record Control : Type 0 where
  pub inactive_count : ℕ
  pub remote_silent_count : ℕ
  pub remote_silent_total : ℕ
  pub silence_warned : Bool
  pub client_idle_ticks : ℕ
  pub last_active : Bool
  pub last_remote_rx : Bool
  pub reconnect_drift : Bool
  pub reconnect_needed : Bool
  pub exited : Bool

-- What `trigger_recovery_reconnect` reads: the remote socket is open, `src_port_drift` is set, and the
-- source port is chosen by the proxy.
pub record Proxy : Type 0 where
  pub has_remote_fd : Bool
  pub src_port_drift : Bool
  pub auto_src_port : Bool

unfoldable pub trigger_recovery_reconnect : Proxy → Control → Control
trigger_recovery_reconnect p c = if not p.has_remote_fd then c else record c {
  reconnect_drift = if p.src_port_drift && p.auto_src_port then true else c.reconnect_drift;
  reconnect_needed = true;
}

-- The packets that the other threads saw since the last tick.
unfoldable pub observe : Bool → Bool → Control → Control
observe active remote_rx c = record c { last_active = active; last_remote_rx = remote_rx }

-- The tick with packets from the remote end.
unfoldable pub healthy : Control → Control
healthy c = record c {
  inactive_count = 0;
  remote_silent_count = 0;
  remote_silent_total = 0;
  silence_warned = false;
  client_idle_ticks = 0;
  reconnect_drift = false;
}

-- The tick on a broken path, from the counters already advanced: `silence_warned`, the exit, the reconnect.
unfoldable pub broken_path : Bounds → Proxy → Control → Control
unfolding trigger_recovery_reconnect
broken_path b p c =
    let warned = record c {
      silence_warned =
          if not c.silence_warned && leb b.warn_checks c.remote_silent_total
          then true
          else c.silence_warned;
    } in
    if b.exit_enabled && leb b.exit_checks_needed c.remote_silent_total
    then record warned { exited = true }
    else if leb b.silent_checks_needed c.remote_silent_count
    then record (trigger_recovery_reconnect p warned) { remote_silent_count = 0 }
    else warned

-- The tick with a quiet client.
unfoldable pub idle : Bounds → Proxy → Control → Control
unfolding trigger_recovery_reconnect
idle b p c =
    let counted = record c {
      remote_silent_count = 0;
      remote_silent_total = 0;
      silence_warned = false;
      inactive_count = c.inactive_count + 1;
    } in
    if leb b.checks_needed counted.inactive_count
    then record (trigger_recovery_reconnect p counted) { inactive_count = 0 }
    else counted

-- The branch of `proxy_control_loop` for the timer. The two flags are exchanged for 0.
unfoldable pub timer_tick : Bounds → Proxy → Control → Control
unfolding healthy broken_path idle
timer_tick b p c =
    let taken = record c { last_active = false; last_remote_rx = false } in
    let counted = record taken {
      client_idle_ticks = if c.last_active then 0 else c.client_idle_ticks + 1;
    } in
    if c.exited
    then c
    else if c.last_remote_rx
    then healthy taken
    else if leb counted.client_idle_ticks client_active_grace_checks
    then broken_path b p (record counted {
      inactive_count = 0;
      remote_silent_count = c.remote_silent_count + 1;
      remote_silent_total = c.remote_silent_total + 1;
    })
    else idle b p counted

-- A run: what the other threads saw before each tick.
pub record Window : Type 0 where
  pub active : Bool
  pub remote_rx : Bool

unfoldable pub run : Bounds → Proxy → Control → List Window → Control
unfolding timer_tick observe
run b p c [] = c
run b p c (w ∷ ws) = run b p (timer_tick b p (observe w.active w.remote_rx c)) ws

-- The state in which `proxy_control_loop` starts.
abbrev pub started : Control
started = record {
  inactive_count = 0;
  remote_silent_count = 0;
  remote_silent_total = 0;
  silence_warned = false;
  client_idle_ticks = 0;
  last_active = false;
  last_remote_rx = false;
  reconnect_drift = false;
  reconnect_needed = false;
  exited = false;
}
