-- ===== src/Link/Again.antt =====
-- The reconnect of `s2c_thread` in src/proxy.c, through `proxy_do_reconnect` and `proxy_dial_remote`.
use std.Path.{subst}
use mathlib.Core.Bool.{true≢false}
use awg2_webui.Base.{
  ℕ, suc, ◌≡◌, refl, ap, sym, ◌∙◌, Bool, true, false, not, ◌&&◌, Option, some, none, List, [], ◌∷◌,
  ◌++◌, ltb, ◌==◌, if◌then◌else◌, if_true, if_false, length, arith, All, Bool-cases, inl, inr, ◌⊎◌,
}
use awg2_webui.Link.{
  DialSetup, Link, Attempt, connected_fd, proxy_dial_remote, relinked, proxy_do_reconnect,
  next_backoff, wants_reconnect, bind_port, reconnects,
}
use awg2_webui.Link.{proxy_note_dns_resolve_failure}
use awg2_webui.Link.Backoff.{IsDelay}

next_backoff_bounds :
    (r : Option ℕ) (backoff : ℕ) → IsDelay 30 backoff → IsDelay 30 (next_backoff r backoff)
next_backoff_bounds none backoff (low, high) = ground (arith, low, high)
next_backoff_bounds (some fd) backoff h = (omega arith, omega arith)

-- The name does not resolve, there is no socket, or it does not connect.
abbrev pub IsFailing : Attempt → Type 0
IsFailing a = (a.resolves ≡ false) ⊎ ((a.fd ≡ none) ⊎ (a.connects ≡ false))

-- The name resolves, and the socket can be bound and connected.
pub record IsReachable (a : Attempt) (fd : ℕ) : Type 0 where
  pub resolved : a.resolves ≡ true
  pub socket : a.fd ≡ some fd
  pub bound : (port : ℕ) → a.binds port ≡ true
  pub connected : a.connects ≡ true

module _ (d : DialSetup) (endless : d.dns_timeout ≡ 0) where
  connected_fd-none :
      (a : Attempt) (l : Link) (fd : Option ℕ)
      → (fd ≡ none) ⊎ (a.connects ≡ false)
      → connected_fd d a l fd ≡ none
  connected_fd-none a l none h = refl
  connected_fd-none a l (some fd) (inl e) = cc
  connected_fd-none a l (some fd) (inr e) =
      elim (Bool-cases (ltb 0 (bind_port d l) && not (a.binds (bind_port d l)))) [
        | inl b ↦ if_true _ b none _
        | inr b ↦ if_false _ b none _ ∙ if_true (not a.connects) (ap not e) none (some fd)
      ]

  -- A failed dial of a link without a socket leaves it without one.
  dial_failed :
      (a : Attempt) (l : Link)
      → IsFailing a
      → l.remote_fd ≡ none
      → ((proxy_dial_remote d a l).0 ≡ none)
        × (((proxy_dial_remote d a l).1.remote_fd ≡ none)
            × ((proxy_dial_remote d a l).1.exited ≡ l.exited))
  unfolding proxy_dial_remote proxy_note_dns_resolve_failure
  dial_failed a l h closed = elim (Bool-cases a.resolves) [
    | inl found ↦ rw (found) (
      connected_fd-none a (record l { dns_started = 0 }) a.fd (not_resolving a found h),
      (closed, refl),
    )
    | inr lost ↦
        let off : (d.dns_timeout == 0) ≡ true = ground (arith, endless) in
        rw (lost, off) (refl, (closed, refl))
  ]
    where
      not_resolving :
          (a : Attempt) → a.resolves ≡ true → IsFailing a → (a.fd ≡ none) ⊎ (a.connects ≡ false)
      not_resolving a found (inl lost) = absurd (true≢false (sym found ∙ lost))
      not_resolving a found (inr other) = other

  dial_reached :
      (a : Attempt) (fd : ℕ) (l : Link)
      → IsReachable a fd
      → proxy_dial_remote d a l ≡ (some fd, record l { dns_started = 0 })
  unfolding proxy_dial_remote
  dial_reached a fd l ok =
      let port : ℕ = bind_port d (record l { dns_started = 0 }) in
      rw (ok.resolved, ok.socket, ok.bound port, ok.connected) (and_false (ltb 0 port))
    where
      and_false :
          (b : Bool)
          → Path
              (Option ℕ × Link)
              (if b && false then none else some fd, record l { dns_started = 0 })
              (some fd, record l { dns_started = 0 })
      and_false true = refl
      and_false false = refl

  -- What `reconnects` comes to, from a backoff and a link.
  Relinked : ℕ → ℕ → Link → List ℕ × ℕ × Link → Type 0
  Relinked n fd l x =
      ((x.2.remote_fd ≡ some fd) × ((x.2.reconnect_needed ≡ false) × (x.2.exited ≡ l.exited)))
      × ((x.1 ≡ 1) × ((length x.0 ≡ suc n) × All (IsDelay 30) x.0))

  settled :
      (backoff fd : ℕ) (l : Link) (rest : List Attempt)
      → l.remote_fd ≡ some fd
      → l.reconnect_needed ≡ false
      → reconnects d backoff l rest ≡ ([], backoff, l)
  unfolding reconnects
  settled backoff fd l [] h k = refl
  settled backoff fd l (a ∷ rest) h k =
      if_false (wants_reconnect l)
        (ap (λ f. elim f [ none ↦ true | some g ↦ l.reconnect_needed ]) h ∙ k) _ _

  -- One turn.
  one_turn :
      (backoff : ℕ) (l : Link) (a : Attempt) (rest : List Attempt)
      → wants_reconnect l ≡ true
      → let r = proxy_do_reconnect d a l in
        let x = reconnects d (next_backoff r.0 backoff) r.1 rest in
        reconnects d backoff l (a ∷ rest) ≡ (backoff ∷ x.0, x.1, x.2)
  unfolding reconnects
  one_turn backoff l a rest h = if_true (wants_reconnect l) h _ _

  reached :
      (backoff fd : ℕ) (l : Link) (a : Attempt) (rest : List Attempt)
      → wants_reconnect l ≡ true
      → IsReachable a fd
      → IsDelay 30 backoff
      → Relinked 0 fd l (reconnects d backoff l (a ∷ rest))
  unfolding proxy_do_reconnect Relinked
  reached backoff fd l a rest wants ok delay =
      let closed : Link = record l { remote_fd = none } in
      let linked : Link = relinked d (some fd) (record closed { dns_started = 0 }) in
      let dialed : proxy_do_reconnect d a l ≡ (some fd, linked) =
        ap (λ (x : Option ℕ × Link). (x.0, relinked d x.0 x.1)) (dial_reached a fd closed ok) in
      subst (Relinked 0 fd l)
        (sym (
          one_turn backoff l a rest wants
          ∙ ap
              (λ (r : Option ℕ × Link). (
                backoff ∷ (reconnects d (next_backoff r.0 backoff) r.1 rest).0,
                (reconnects d (next_backoff r.0 backoff) r.1 rest).1,
                (reconnects d (next_backoff r.0 backoff) r.1 rest).2,
              ))
              dialed
          ∙ ap (λ (x : List ℕ × ℕ × Link). (backoff ∷ x.0, x.1, x.2))
              (settled 1 fd linked rest refl refl)))
        ((refl, (refl, refl)), (refl, (refl, (delay, tt))))

  failed_reconnect :
      (f : Attempt) (l : Link)
      → (proxy_dial_remote d f (record l { remote_fd = none })).0 ≡ none
      → proxy_do_reconnect d f l ≡ (none, (proxy_dial_remote d f (record l { remote_fd = none })).1)
  unfolding proxy_do_reconnect
  failed_reconnect f l lost =
      ap (λ o. (o, relinked d o (proxy_dial_remote d f (record l { remote_fd = none })).1)) lost

  -- A turn, given what the reconnect in it returned.
  turn : ℕ → List Attempt → Option ℕ × Link → List ℕ × ℕ × Link
  turn backoff rest r =
      let x = reconnects d (next_backoff r.0 backoff) r.1 rest in (backoff ∷ x.0, x.1, x.2)

  -- Reconnects end with success once the remote end can be reached, whatever failed before: after so many
  -- attempts, each behind a sleep of 1 to 30 seconds, the link has the new socket, the request is gone, the
  -- process has not ended meanwhile (the limit on failures to resolve is off), and the backoff is 1 again.
  pub reconnects-reached :
      (failing rest : List Attempt) (a : Attempt) (fd backoff : ℕ) (l : Link)
      → wants_reconnect l ≡ true
      → All IsFailing failing
      → IsReachable a fd
      → IsDelay 30 backoff
      → let x = reconnects d backoff l (failing ++ (a ∷ rest)) in
        ((x.2.remote_fd ≡ some fd) × ((x.2.reconnect_needed ≡ false) × (x.2.exited ≡ l.exited)))
        × ((x.1 ≡ 1) × ((length x.0 ≡ suc (length failing)) × All (IsDelay 30) x.0))
  unfolding Relinked turn
  reconnects-reached [] rest a fd backoff l wants fails ok delay =
      reached backoff fd l a rest wants ok delay
  reconnects-reached (f ∷ failing) rest a fd backoff l wants fails ok delay =
      let closed : Link = record l { remote_fd = none } in
      let (lost, (still, alive)) = dial_failed f closed fails.0 refl in
      let next : Link = (proxy_dial_remote d f closed).1 in
      let later : List ℕ × ℕ × Link =
        reconnects d (next_backoff none backoff) next (failing ++ (a ∷ rest)) in
      let ((sock, (asked, ended)), (one, (len, slept))) =
        reconnects-reached failing rest a fd (next_backoff none backoff) next
          (ap (λ o. elim o [ none ↦ true | some g ↦ next.reconnect_needed ]) still) fails.1 ok
          (next_backoff_bounds none backoff delay) in
      subst (Relinked (suc (length failing)) fd l)
        (sym (
          one_turn backoff l f (failing ++ (a ∷ rest)) wants
          ∙ ap (turn backoff (failing ++ (a ∷ rest))) (failed_reconnect f l lost)))
        ((sock, (asked, ended ∙ alive)), (one, (ap suc len, (delay, slept))))
