-- ===== src/Link/Tests.antt =====
-- Tests of the link to the remote end, and its theorems at concrete attempts.
use awg2_webui.Base.{ℕ, ◌≡◌, refl, true, false, some, none, [], ◌∷◌, length, arith, All, inl, inr}
use awg2_webui.Link.{DialSetup, Link, Attempt, reconnects, startup_from, linked, gave_up}
use awg2_webui.Link.Backoff.{IsDelay, startup_from-linked, startup_from-gave_up}
use awg2_webui.Link.Again.{reconnects-reached}
use awg2_webui.Link.Window.{dials, lasted, dials-exited}

abbrev setup : ℕ → DialSetup
setup timeout = record {
  dns_timeout = timeout;
  local_port = 0;
  auto_src_port = true;
  client_mode = true;
}

abbrev down : Link
down = record {
  remote_fd = none;
  has_client = true;
  last_active = false;
  last_remote_rx = false;
  reconnect_needed = true;
  reconnect_drift = true;
  dns_started = 0;
  exited = false;
}

abbrev unresolved : ℕ → Attempt
unresolved now = record {
  now = now;
  resolves = false;
  fd = none;
  binds = λ port. true;
  connects = false;
}

abbrev reachable : Attempt
reachable = record { now = 9; resolves = true; fd = some 7; binds = λ port. true; connects = true }

startup_from-linked_example :
    let x = startup_from 5 0 (none ∷ none ∷ some 4 ∷ []) in
    (x.0 ≡ linked 4) × ((length x.1 ≡ 2) × All (IsDelay 60) x.1)
startup_from-linked_example = startup_from-linked 5 2 4 [] (inr (omega arith))

startup_from-gave_up_example :
    let x = startup_from 3 0 (none ∷ none ∷ none ∷ none ∷ []) in
    (x.0 ≡ gave_up 3) × ((length x.1 ≡ 2) × All (IsDelay 60) x.1)
startup_from-gave_up_example = startup_from-gave_up 2 (none ∷ [])

reconnects-reached_example :
    let x = reconnects (setup 0) 1 down (unresolved 3 ∷ reachable ∷ []) in
    ((x.2.remote_fd ≡ some 7) × ((x.2.reconnect_needed ≡ false) × (x.2.exited ≡ false)))
    × ((x.1 ≡ 1) × ((length x.0 ≡ 2) × All (IsDelay 30) x.0))
reconnects-reached_example =
    reconnects-reached (setup 0) refl (unresolved 3 ∷ []) [] reachable 7 1 down refl (inl refl, tt)
      (record { resolved = refl; socket = refl; bound = λ port. refl; connected = refl })
      (omega arith, omega arith)

dials-exited_example :
    (dials (setup 720) (unresolved 100 ∷ unresolved 500 ∷ unresolved 900 ∷ []) down).exited ≡ true
unfolding lasted
dials-exited_example =
    dials-exited (setup 720) (omega arith) (unresolved 100) (unresolved 500 ∷ unresolved 900 ∷ [])
      down (refl, (refl, (refl, tt))) refl (omega arith) refl
