-- ===== src/Link/Window.antt =====
-- The limit on failures to resolve the remote end's name (`proxy_note_dns_resolve_failure` of
-- src/proxy_net.c), over the dials that fail one after the other.
use awg2_webui.Base.{
  ℕ, ◌-◌, ◌<◌, ◌≡◌, refl, ap, ◌∙◌, Bool, true, false, not, ◌||◌, List, [], ◌∷◌, ltb, ◌==◌, arith,
  All,
}
use awg2_webui.Link.{DialSetup, Link, Attempt, proxy_note_dns_resolve_failure, proxy_dial_remote}

-- The link after the dials.
unfoldable pub dials : DialSetup → List Attempt → Link → Link
unfolding proxy_dial_remote
dials d [] l = l
dials d (a ∷ rest) l = dials d rest (proxy_dial_remote d a l).1

-- One of the dials comes at least the limit after that time.
unfoldable pub lasted : DialSetup → ℕ → List Attempt → Bool
lasted d since [] = false
lasted d since (a ∷ rest) = not (ltb (a.now - since) d.dns_timeout) || lasted d since rest

abbrev pub DoesNotResolve : Attempt → Type 0
DoesNotResolve a = a.resolves ≡ false

or_assoc : (a b c : Bool) → ((a || b) || c) ≡ (a || (b || c))
or_assoc true b c = refl
or_assoc false b c = refl

module _ (d : DialSetup) (on : 0 < d.dns_timeout) where
  note_later :
      (now : ℕ) (l : Link)
      → 0 < l.dns_started
      → proxy_note_dns_resolve_failure d now l
        ≡ record l { exited = l.exited || not (ltb (now - l.dns_started) d.dns_timeout) }
  unfolding proxy_note_dns_resolve_failure
  note_later now l h =
      let limit : (d.dns_timeout == 0) ≡ false = ground (arith, on) in
      let running : (l.dns_started == 0) ≡ false = ground (arith, h) in rw (limit, running) refl

  note_first :
      (now : ℕ) (l : Link)
      → l.dns_started ≡ 0
      → proxy_note_dns_resolve_failure d now l
        ≡ record l { dns_started = now; exited = l.exited || not (ltb (now - now) d.dns_timeout) }
  unfolding proxy_note_dns_resolve_failure
  note_first now l h =
      let limit : (d.dns_timeout == 0) ≡ false = ground (arith, on) in
      let first : (l.dns_started == 0) ≡ true = ground (arith, h) in rw (limit, first) refl

  unresolved :
      (a : Attempt) (l : Link)
      → a.resolves ≡ false
      → (proxy_dial_remote d a l).1 ≡ proxy_note_dns_resolve_failure d a.now l
  unfolding proxy_dial_remote
  unresolved a l h = rw (h) refl

  dials_later :
      (rest : List Attempt) (l : Link)
      → All DoesNotResolve rest
      → 0 < l.dns_started
      → (dials d rest l).exited ≡ (l.exited || lasted d l.dns_started rest)
  unfolding dials lasted
  dials_later [] l h started = or_nothing l.exited
    where
      or_nothing : (b : Bool) → b ≡ (b || false)
      or_nothing true = refl
      or_nothing false = refl
  dials_later (a ∷ rest) l h started =
      let late : Bool = not (ltb (a.now - l.dns_started) d.dns_timeout) in
      ap (λ (x : Link). (dials d rest x).exited) (unresolved a l h.0 ∙ note_later a.now l started)
      ∙ dials_later rest (record l { exited = l.exited || late }) h.1 started
      ∙ or_assoc l.exited late (lasted d l.dns_started rest)

  -- While the name does not resolve, from a first failure on, the process ends exactly when one of the later
  -- failures comes at least the limit after that first one. The limit is on, the clock is past its
  -- first second at the first failure, and there was no failure before it since the name last resolved.
  pub dials-exited :
      (a : Attempt) (rest : List Attempt) (l : Link)
      → All DoesNotResolve (a ∷ rest)
      → l.dns_started ≡ 0
      → 0 < a.now
      → l.exited ≡ false
      → (dials d (a ∷ rest) l).exited ≡ lasted d a.now rest
  unfolding dials
  dials-exited a rest l h fresh clock alive =
      let within : ltb (a.now - a.now) d.dns_timeout ≡ true = ground (arith, on) in
      ap (λ (x : Link). (dials d rest x).exited) (unresolved a l h.0 ∙ note_first a.now l fresh)
      ∙ dials_later rest
          (record l {
            dns_started = a.now;
            exited = l.exited || not (ltb (a.now - a.now) d.dns_timeout);
          })
          h.1 clock
      ∙ ap (λ b. (b || not (ltb (a.now - a.now) d.dns_timeout)) || lasted d a.now rest) alive
      ∙ ap (λ b. not b || lasted d a.now rest) within
