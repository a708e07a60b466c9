-- ===== src/Link.antt =====
-- src/proxy_net.c, src/proxy_reconnect.c, src/proxy_startup.c and the reconnect in `s2c_thread` of
-- src/proxy.c: how the socket to the remote end is made, and made again. What the resolver and the
-- system calls answer are the attempts, one after the other; the close of the old socket is the descriptor
-- that is gone. The log, the socket options and the flags that only decide what is logged are left out.
pub mod Backoff
pub mod Again
pub mod Window
mod Tests
use awg2_webui.Base.{
  ℕ, zero, suc, ◌+◌, ◌-◌, ◌*◌, Bool, true, false, not, ◌&&◌, ◌||◌, Option, some, none, List, [],
  ◌∷◌, ltb, leb, ◌==◌, if◌then◌else◌,
}

-- What the configuration says (`cfg->dns_resolve_failure_timeout`, `local_port`, `auto_src_port`).
pub record DialSetup : Type 0 where
  pub dns_timeout : ℕ
  pub local_port : ℕ
  pub auto_src_port : Bool
  pub client_mode : Bool

-- The fields of `proxy_t`. `exited` is that `_exit(1)` was called.
pub record Link : Type 0 where
  pub remote_fd : Option ℕ
  pub has_client : Bool
  pub last_active : Bool
  pub last_remote_rx : Bool
  pub reconnect_needed : Bool
  pub reconnect_drift : Bool
  pub dns_started : ℕ
  pub exited : Bool

-- The answers to one `proxy_dial_remote`: the monotonic clock, whether the name resolves, the new socket,
-- which ports it can be bound to, and whether it connects.
pub record Attempt : Type 0 where
  pub now : ℕ
  pub resolves : Bool
  pub fd : Option ℕ
  pub binds : ℕ → Bool
  pub connects : Bool

-- `proxy_note_dns_resolve_failure`; a negative time since the start is below the limit, as 0 is.
unfoldable pub proxy_note_dns_resolve_failure : DialSetup → ℕ → Link → Link
proxy_note_dns_resolve_failure d now l =
    let started = if l.dns_started == 0 then now else l.dns_started in
    if d.dns_timeout == 0 then l else record l {
      dns_started = started;
      exited = l.exited || not (ltb (now - started) d.dns_timeout);
    }

abbrev pub bind_port : DialSetup → Link → ℕ
bind_port d l = if d.auto_src_port && l.reconnect_drift then 0 else d.local_port

-- The socket, once it is bound and connected.
abbrev pub connected_fd : DialSetup → Attempt → Link → Option ℕ → Option ℕ
connected_fd d a l none = none
connected_fd d a l (some fd) =
    if ltb 0 (bind_port d l) && not (a.binds (bind_port d l))
    then none
    else if not a.connects
    then none
    else some fd

unfoldable pub proxy_dial_remote : DialSetup → Attempt → Link → Option ℕ × Link
unfolding proxy_note_dns_resolve_failure
proxy_dial_remote d a l =
    let resolved = record l { dns_started = 0 } in
    if not a.resolves
    then (none, proxy_note_dns_resolve_failure d a.now l)
    else (connected_fd d a resolved a.fd, resolved)

abbrev pub relinked : DialSetup → Option ℕ → Link → Link
relinked d none l = l
relinked d (some fd) l = record l {
  remote_fd = some fd;
  has_client = if d.client_mode then false else l.has_client;
  last_active = true;
  last_remote_rx = false;
  reconnect_needed = false;
}

-- `proxy_do_reconnect`, the old socket closed first.
unfoldable pub proxy_do_reconnect : DialSetup → Attempt → Link → Option ℕ × Link
unfolding proxy_dial_remote
proxy_do_reconnect d a l =
    let (fd, dialed) = proxy_dial_remote d a (record l { remote_fd = none }) in
    (fd, relinked d fd dialed)

-- `reconnect_backoff *= 2`, at most 30, or 1 after a success.
abbrev pub next_backoff : Option ℕ → ℕ → ℕ
next_backoff none backoff = if ltb 30 (backoff * 2) then 30 else backoff * 2
next_backoff (some fd) backoff = 1

-- `remote_fd < 0 || reconnect_needed`
abbrev pub wants_reconnect : Link → Bool
wants_reconnect l = elim l.remote_fd [ none ↦ true | some fd ↦ l.reconnect_needed ]

-- The turns of `s2c_thread` that only reconnect: the seconds slept, the backoff and the link after them.
-- They end with the attempts, or once no reconnect is wanted any more.
unfoldable pub reconnects : DialSetup → ℕ → Link → List Attempt → List ℕ × ℕ × Link
unfolding proxy_do_reconnect
reconnects d backoff l [] = ([], backoff, l)
reconnects d backoff l (a ∷ rest) =
    let (fd, l') = proxy_do_reconnect d a l in
    let (slept, b, last) = reconnects d (next_backoff fd backoff) l' rest in
    if wants_reconnect l then (backoff ∷ slept, b, last) else ([], backoff, l)

-- `for (i = 1; i < attempt && delay < 60; i++) delay *= 2`, from `delay`, with `left` turns left.
unfoldable pub doubled : ℕ → ℕ → ℕ
doubled zero delay = delay
doubled (suc left) delay =
    let more = doubled left (delay * 2) in if ltb delay 60 then more else delay

-- The seconds between two attempts of `proxy_startup_network`.
unfoldable pub startup_delay : ℕ → ℕ
unfolding doubled
startup_delay attempt = let delay = doubled (attempt - 1) 1 in if ltb 60 delay then 60 else delay

pub data Startup : Type 0 where
  linked : (fd : ℕ) → Startup
  gave_up : (attempts : ℕ) → Startup
  dialing : (attempts : ℕ) → Startup

-- The loop of `proxy_startup_network` over the results of the dials, with the seconds slept between them.
unfoldable pub startup_from : ℕ → ℕ → List (Option ℕ) → Startup × List ℕ
unfolding startup_delay
startup_from max_retries attempt [] = (dialing attempt, [])
startup_from max_retries attempt (r ∷ rs) =
    let (end, slept) = startup_from max_retries (attempt + 1) rs in
    elim r [
      | some fd ↦ (linked fd, [])
      | none ↦
          if ltb 0 max_retries && leb max_retries (attempt + 1)
          then (gave_up (attempt + 1), [])
          else (end, startup_delay (attempt + 1) ∷ slept)
    ]
