-- ===== src/Obfs/Frame/Variable.antt =====
-- Frames whose header's length is read from the header itself.
use awg2_webui.Base.{
  ℕ, ◌+◌, ◌-◌, ◌*◌, ◌≤◌, ◌<◌, ◌%◌, ◌≡◌, refl, true, not, List, ◌++◌, arith, length, take-append,
  drop-append, length-append, zero, suc, length-fill_from, drop, take, low_bits, bit_and, bit_or,
  u8, shr, ◌==◌, passes_below, passes_below_sound, fill_from,
}
use awg2_webui.Obfs.{Session}
use awg2_webui.Obfs.Wrap.{quic_header, enet_commands, enet_header}
use awg2_webui.Obfs.Unwrap.{deliver, unwrap_quic_short, unwrap_game_enet}

pub length-enet_commands : (seq i n : ℕ) → length (enet_commands seq i n) ≡ n * 4
length-enet_commands seq i zero = refl
length-enet_commands seq i (suc n) = omega (arith, length-enet_commands seq (i + 1) n)

-- What is left between a header of `h` bytes and a padding of `pad` bytes.
middle :
    (h pad n : ℕ) (header body tail : List ℕ)
    → length header ≡ h
    → length tail ≡ pad
    → length (header ++ (body ++ tail)) ≡ n
    → take (n - h - pad) (drop h (header ++ (body ++ tail))) ≡ body
middle h pad n header body tail eh et en = rw (drop-append h header (body ++ tail) eh) (
    take-append (n - h - pad) body tail
      (omega (arith, length-append header (body ++ tail), length-append body tail)))

pub unwrap_enet-header :
    (r : Session) (seq cmds pad : ℕ) (body tail : List ℕ)
    → 1 ≤ cmds
    → cmds ≤ 3
    → pad ≤ 5
    → length tail ≡ pad
    → unwrap_game_enet r (enet_header seq cmds pad ++ (body ++ tail)) ≡ deliver r body
unfolding unwrap_game_enet
unwrap_enet-header r seq cmds pad body tail lo hi hp et = ground (
  arith,
  length-enet_commands seq 0 cmds,
  length-append (enet_header seq cmds pad) (body ++ tail),
  length-append body tail,
  middle (6 + cmds * 4) pad (length (enet_header seq cmds pad ++ (body ++ tail)))
      (enet_header seq cmds pad) body tail,
)

quic_flag_table : passes_below 64 (λ x. not (bit_and (u8 (bit_or 0x40 x)) 0x40 == 0)) ≡ true
unfolding passes_below
quic_flag_table = refl

quic_flag : (x : ℕ) → x < 64 → not (bit_and (u8 (bit_or 0x40 x)) 0x40 == 0) ≡ true
quic_flag x h =
    passes_below_sound 64 (λ x. not (bit_and (u8 (bit_or 0x40 x)) 0x40 == 0)) quic_flag_table x h

pub length-quic_header :
    (seq dcid pn pad : ℕ) → length (quic_header seq dcid pn pad) ≡ 4 + dcid + pn
length-quic_header seq dcid pn pad = omega (
  arith,
  length-append (fill_from 0 dcid (λ i. u8 (shr seq (i % 8 * 8) + i * 29)))
      (fill_from 0 pn (λ i. u8 (shr seq ((pn - i - 1) * 8)))),
  length-fill_from 0 dcid (λ i. u8 (shr seq (i % 8 * 8) + i * 29)),
  length-fill_from 0 pn (λ i. u8 (shr seq ((pn - i - 1) * 8))),
)

pub unwrap_quic-header :
    (r : Session) (seq dcid pn pad : ℕ) (body tail : List ℕ)
    → 8 ≤ dcid
    → dcid ≤ 12
    → 1 ≤ pn
    → pn ≤ 4
    → pad ≤ 7
    → length tail ≡ pad
    → unwrap_quic_short r (quic_header seq dcid pn pad ++ (body ++ tail)) ≡ deliver r body
unfolding unwrap_quic_short
unwrap_quic-header r seq dcid pn pad body tail d1 d2 p1 p2 hp et = ground (
  arith,
  quic_flag (low_bits (shr seq 3) 6),
  length-quic_header seq dcid pn pad,
  length-append (quic_header seq dcid pn pad) (body ++ tail),
  length-append body tail,
  middle (4 + dcid + pn) pad (length (quic_header seq dcid pn pad ++ (body ++ tail)))
      (quic_header seq dcid pn pad) body tail,
)
