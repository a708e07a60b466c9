-- ===== src/Obfs/Flow.antt =====
-- A flow of packets through two sessions of src/obfs.c, one that wraps and one that unwraps.
use mathlib.Core.List.{append-nil}
use awg2_webui.Base.{
  ℕ, zero, suc, ◌+◌, ◌≤◌, ◌<◌, ◌≡◌, ◌≢◌, ◌⊎◌, inl, inr, refl, ap, ◌∙◌, true, false, Option, some,
  none, List, [], ◌∷◌, ◌++◌, length, arith, All, if◌then◌else◌, u64,
}
use awg2_webui.Obfs.{
  Profile, off, is_off, stun_ice, dns_like, Session, session_init, marker_write_if_needed,
  marker_unwrap_if_needed, obfs_marker, obfs_max_packet,
}
use awg2_webui.Obfs.Wrap.{obfs_wrap}
use awg2_webui.Obfs.Unwrap.{obfs_unwrap, deliver}
use awg2_webui.Obfs.Send.{frame_bytes, advanced, obfs_wrap_lem}
use awg2_webui.Obfs.Overhead.{frame_length-le}
use awg2_webui.Obfs.RoundTrip.{unstripped, obfs_unwrap-obfs_wrap}

-- Each packet is wrapped by the sender and, if it was sent, unwrapped by the receiver.
unfoldable pub flow : Session → Session → List (List ℕ) → List (Option (List ℕ))
flow s r [] = []
flow s r (p ∷ ps) =
    let (w, s') = obfs_wrap s p in
    elim w [
      | none ↦ none ∷ flow s' r ps
      | some x ↦ let (out, r') = obfs_unwrap r x in out ∷ flow s' r' ps
    ]

-- What a receiver that has seen its marker makes of a body.
deliver_seen :
    (r : Session) (body : List ℕ)
    → r.marker_seen ≡ true
    → deliver r body ≡ (some body, record r { rx_seq = u64 (r.rx_seq + 1) })
unfolding deliver marker_unwrap_if_needed
deliver_seen r body h = ground arith

-- A receiver that waits for its marker strips it, and has seen it from then on.
deliver_first :
    (r : Session) (body : List ℕ)
    → r.marker_seen ≡ false
    → deliver r (obfs_marker ++ body)
      ≡ (some body, record r { rx_seq = u64 (r.rx_seq + 1); marker_seen = true })
unfolding deliver marker_unwrap_if_needed
deliver_first r body h = ground arith

marker_due : (s : Session) → 0 < s.marker_tx_left → (marker_write_if_needed s).0 ≡ obfs_marker
unfolding marker_write_if_needed
marker_due s h = ground arith

marker_not_due : (s : Session) → s.marker_tx_left ≡ 0 → (marker_write_if_needed s).0 ≡ []
unfolding marker_write_if_needed
marker_not_due s h = ground arith

module _ (s r : Session) (input w : List ℕ) (same : r.profile ≡ s.profile)
    (on : s.profile ≢ off) where
  -- While the two ends agree on the marker (the sender still puts it and the receiver waits for it, or
  -- the sender puts it no more and the receiver has seen it), a packet that was sent is received
  -- as it was, under STUN and DNS with the zero padding of the sender's sequence number behind it.
  pub obfs_unwrap_in_step :
      (obfs_wrap s input).0 ≡ some w
      → ((r.marker_seen ≡ false) × (0 < s.marker_tx_left))
        ⊎ ((r.marker_seen ≡ true) × (s.marker_tx_left ≡ 0))
      → (obfs_unwrap r w).0 ≡ some (input ++ unstripped s.profile s.tx_seq)
  obfs_unwrap_in_step e (inl h) =
      ap (λ x. x.0) (obfs_unwrap-obfs_wrap s r input w same on e)
      ∙ ap (λ m. (deliver r (m ++ (input ++ unstripped s.profile s.tx_seq))).0) (marker_due s h.1)
      ∙ ap (λ x. x.0) (deliver_first r (input ++ unstripped s.profile s.tx_seq) h.0)
  obfs_unwrap_in_step e (inr h) =
      ap (λ x. x.0) (obfs_unwrap-obfs_wrap s r input w same on e)
      ∙ ap (λ m. (deliver r (m ++ (input ++ unstripped s.profile s.tx_seq))).0)
          (marker_not_due s h.1)
      ∙ ap (λ x. x.0) (deliver_seen r (input ++ unstripped s.profile s.tx_seq) h.0)

  -- When the receiver has seen the marker and the sender still puts it, the packet is received with
  -- the four bytes of the marker in front.
  pub obfs_unwrap_marker_left :
      (obfs_wrap s input).0 ≡ some w
      → r.marker_seen ≡ true
      → 0 < s.marker_tx_left
      → (obfs_unwrap r w).0 ≡ some (obfs_marker ++ (input ++ unstripped s.profile s.tx_seq))
  obfs_unwrap_marker_left e seen due =
      ap (λ x. x.0) (obfs_unwrap-obfs_wrap s r input w same on e)
      ∙ ap (λ m. (deliver r (m ++ (input ++ unstripped s.profile s.tx_seq))).0) (marker_due s due)
      ∙ ap (λ x. x.0)
          (deliver_seen r (obfs_marker ++ (input ++ unstripped s.profile s.tx_seq)) seen)

-- The packets that a receiver which has seen the marker gets, with `left` markers still to come.
abbrev pub marked : ℕ → List (List ℕ) → List (Option (List ℕ))
marked left [] = []
marked zero (p ∷ ps) = some p ∷ marked zero ps
marked (suc left) (p ∷ ps) = some (obfs_marker ++ p) ∷ marked left ps

abbrev pub IsShort : List ℕ → Type 0
IsShort input = length input + 40 ≤ obfs_max_packet

-- The profiles whose frame tells its padding from the packet.
abbrev pub IsExact : Profile → Type 0
IsExact p = (p ≢ off) × (p ≢ stun_ice) × (p ≢ dns_like)

unstripped-nil : (p : Profile) (seq : ℕ) → IsExact p → unstripped p seq ≡ []
unstripped-nil off seq h = refl
unstripped-nil stun_ice seq h = absurd (h.1 refl)
unstripped-nil dns_like seq h = absurd (h.2 refl)
unstripped-nil _ seq h = refl

module _ (s r : Session) (p : List ℕ) (exact : IsExact s.profile) (short : IsShort p) where
  abbrev wire : List ℕ
  wire = frame_bytes s.profile s p

  obfs_wrap-wire : obfs_wrap s p ≡ (some wire, advanced s.profile s)
  obfs_wrap-wire =
      (obfs_wrap_lem s p exact.0).0 (omega (arith, frame_length-le s.profile s p exact.0))

  -- One packet of a flow.
  flow-cons :
      (ps : List (List ℕ))
      → flow s r (p ∷ ps)
        ≡ (obfs_unwrap r wire).0 ∷ flow (advanced s.profile s) (obfs_unwrap r wire).1 ps
  unfolding flow
  flow-cons ps = rw (obfs_wrap-wire, flow) (rw (ap (λ x. x.1) obfs_wrap-wire))

  module _ (same : r.profile ≡ s.profile) where
    obfs_unwrap-wire : obfs_unwrap r wire ≡ deliver r ((marker_write_if_needed s).0 ++ p)
    obfs_unwrap-wire =
        obfs_unwrap-obfs_wrap s r p wire same exact.0 (ap (λ x. x.0) obfs_wrap-wire)
        ∙ ap (λ t. deliver r ((marker_write_if_needed s).0 ++ t))
            (rw (unstripped-nil s.profile s.tx_seq exact, append-nil))

    flow_seen-cons :
        (ps : List (List ℕ))
        → r.marker_seen ≡ true
        → flow s r (p ∷ ps)
          ≡ some ((marker_write_if_needed s).0 ++ p)
            ∷ flow (advanced s.profile s) (record r { rx_seq = u64 (r.rx_seq + 1) }) ps
    flow_seen-cons ps seen =
        flow-cons ps
        ∙ ap (λ x. x.0 ∷ flow (advanced s.profile s) x.1 ps)
            (obfs_unwrap-wire ∙ deliver_seen r ((marker_write_if_needed s).0 ++ p) seen)

    flow_first-cons :
        (ps : List (List ℕ))
        → r.marker_seen ≡ false
        → 0 < s.marker_tx_left
        → flow s r (p ∷ ps)
          ≡ some p
            ∷ flow
                (advanced s.profile s)
                (record r { rx_seq = u64 (r.rx_seq + 1); marker_seen = true })
                ps
    flow_first-cons ps new due =
        flow-cons ps
        ∙ ap (λ x. x.0 ∷ flow (advanced s.profile s) x.1 ps)
            (obfs_unwrap-wire
              ∙ ap (λ m. deliver r (m ++ p)) (marker_due s due)
              ∙ deliver_first r p new)

flow_seen :
    (left : ℕ) (ps : List (List ℕ)) (s r : Session)
    → IsExact s.profile
    → r.profile ≡ s.profile
    → r.marker_seen ≡ true
    → s.marker_tx_left ≡ left
    → All IsShort ps
    → flow s r ps ≡ marked left ps
flow_seen left [] s r exact same seen e short = unfold flow in refl
flow_seen zero (p ∷ ps) s r exact same seen e short =
    flow_seen-cons s r p exact short.0 same ps seen
    ∙ ap
        (λ m.
          some (m ++ p) ∷ flow (advanced s.profile s) (record r { rx_seq = u64 (r.rx_seq + 1) }) ps)
        (marker_not_due s e)
    ∙ ap (λ l. some p ∷ l)
        (flow_seen zero ps (advanced s.profile s) (record r { rx_seq = u64 (r.rx_seq + 1) }) exact
          same seen (omega arith) short.1)
flow_seen (suc left) (p ∷ ps) s r exact same seen e short =
    flow_seen-cons s r p exact short.0 same ps seen
    ∙ ap
        (λ m.
          some (m ++ p) ∷ flow (advanced s.profile s) (record r { rx_seq = u64 (r.rx_seq + 1) }) ps)
        (marker_due s (omega arith))
    ∙ ap (λ l. some (obfs_marker ++ p) ∷ l)
        (flow_seen left ps (advanced s.profile s) (record r { rx_seq = u64 (r.rx_seq + 1) }) exact
          same seen (omega arith) short.1)

is_off-false : (p : Profile) → p ≢ off → is_off p ≡ false
is_off-false off h = absurd (h refl)
is_off-false _ h = refl

-- Two fresh sessions of a profile other than `off`, STUN and DNS, with whatever seeds: of a flow of
-- packets of at most 4056 bytes that arrive in order, the first is received as it was sent, the
-- second and the third with the marker left in front, and all later ones as they were sent.
pub flow_fresh :
    (profile : Profile) (seed seed' : ℕ) (p : List ℕ) (ps : List (List ℕ))
    → IsExact profile
    → All IsShort (p ∷ ps)
    → flow (session_init profile seed) (session_init profile seed') (p ∷ ps) ≡ some p ∷ marked 2 ps
unfolding session_init
flow_fresh profile seed seed' p ps exact short =
    flow_first-cons s r p exact short.0 refl ps new (omega (arith, due))
    ∙ ap (λ l. some p ∷ l)
        (flow_seen 2 ps (advanced profile s) _ exact refl refl (omega (arith, due)) short.1)
  where
    s : Session
    s = session_init profile seed

    r : Session
    r = session_init profile seed'

    new : r.marker_seen ≡ false
    new = is_off-false profile exact.0

    due : s.marker_tx_left ≡ 3
    due = ap (λ b. if b then 0 else 3) (is_off-false profile exact.0)
