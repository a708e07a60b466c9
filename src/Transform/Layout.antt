-- ===== src/Transform/Layout.antt =====
-- Where the fields of a handshake lie (src/transform.c, src/blake2s.c): the header word, what MAC1
-- covers, MAC1, MAC2; and the padding in front.
use mathlib.Core.List.{append_assoc, append-nil}
use awg2_webui.Base.{
  ℕ, suc, ◌+◌, ◌≤◌, ◌<◌, ◌^◌, ◌≡◌, refl, ap, ◌∙◌, sym, Option, none, some, List, [], ◌∷◌, ◌++◌,
  length, take, drop, replicate, le32, arith, drop-append, take-append, length-append, length-take,
  length-drop,
}
use awg2_webui.Rand.{fastrand_init, fastrand_fill, length-fastrand_fill}
use awg2_webui.Blake2s.{overwrite, blake2s_128mac, recompute_mac1, recompute_mac1_response}
use awg2_webui.Transform.{read32_le, write32_le, seal_init, seal_response}
use awg2_webui.Transform.Outbound.{padded}

-- A small header word fixes the first four bytes.
pub write-read32 :
    (pkt : List ℕ) (v : ℕ) → v < 256 → 4 ≤ length pkt → read32_le pkt ≡ v → write32_le pkt v ≡ pkt
write-read32 [] v h l e = absurd (omega arith)
write-read32 (a ∷ []) v h l e = absurd (omega arith)
write-read32 (a ∷ b ∷ []) v h l e = absurd (omega arith)
write-read32 (a ∷ b ∷ c ∷ []) v h l e = absurd (omega arith)
write-read32 (a ∷ b ∷ c ∷ d ∷ rest) v h l e = ground arith

pub read32-write : (pkt : List ℕ) (v : ℕ) → v < 2 ^ 32 → read32_le (write32_le pkt v) ≡ v
read32-write pkt v h = omega arith

pub length-write32 :
    (pkt : List ℕ) (v : ℕ) → 4 ≤ length pkt → length (write32_le pkt v) ≡ length pkt
length-write32 pkt v h = omega (arith, length-drop 4 pkt)

-- A write at the end of `x`, over `old`.
overwrite-append :
    (n : ℕ) (x old new rest : List ℕ)
    → length x ≡ n
    → length new ≡ length old
    → overwrite n new (x ++ (old ++ rest)) ≡ x ++ (new ++ rest)
overwrite-append n x old new rest e f =
    ap (λ t. t ++ (new ++ drop (n + length new) (x ++ (old ++ rest))))
      (take-append n x (old ++ rest) e)
    ∙ ap (λ t. x ++ (new ++ t))
        (ap (drop (n + length new)) (sym (append_assoc x old rest))
          ∙ drop-append (n + length new) (x ++ old) rest (omega (arith, length-append x old)))

length-mac : (key p : List ℕ) → length (blake2s_128mac key p) ≡ 16
unfolding blake2s_128mac
length-mac key p = refl

-- A handshake with its MACs at `m` and `m + 16`, as it stands after both were written.
abbrev pub sealed_at : ℕ → List ℕ → List ℕ → List ℕ
sealed_at m key pkt = take m pkt ++ (blake2s_128mac key (take m pkt) ++ replicate 16 0)

-- Writing MAC1 at `m` and zeros at `m + 16` into a packet of `m + 32` bytes.
macs_at :
    (m m2 : ℕ) (key pkt : List ℕ)
    → length pkt ≡ m + 32
    → m2 ≡ m + 16
    → overwrite m2 (replicate 16 0) (overwrite m (blake2s_128mac key (take m pkt)) pkt)
      ≡ sealed_at m key pkt
macs_at m m2 key pkt e f =
    ap (overwrite m2 zeros)
      (sym (append_assoc x mac c) ∙ ap (λ t. (x ++ mac) ++ t) (sym (append-nil c)))
    ∙ overwrite-append m2 (x ++ mac) c zeros []
        (omega (arith, f, length-append x mac, length-take m pkt (omega arith), length-mac key x))
        (omega (arith, length-drop (m + length mac) pkt, length-mac key x))
    ∙ append_assoc x mac (zeros ++ [])
    ∙ ap (λ t. x ++ (mac ++ t)) (append-nil zeros)
  where
    x : List ℕ
    x = take m pkt

    mac : List ℕ
    mac = blake2s_128mac key x

    c : List ℕ
    c = drop (m + length mac) pkt

    zeros : List ℕ
    zeros = replicate 16 0

pub seal_init-some :
    (key pkt : List ℕ) → length pkt ≡ 148 → seal_init (some key) pkt ≡ sealed_at 116 key pkt
unfolding recompute_mac1
seal_init-some key pkt e = macs_at 116 132 key pkt e refl

pub seal_response-some :
    (key pkt : List ℕ) → length pkt ≡ 92 → seal_response (some key) pkt ≡ sealed_at 60 key pkt
unfolding recompute_mac1_response
seal_response-some key pkt e = macs_at 60 76 key pkt e refl

length-sealed_at :
    (m : ℕ) (key pkt : List ℕ) → m ≤ length pkt → length (sealed_at m key pkt) ≡ m + 32
length-sealed_at m key pkt h = omega (
  arith,
  length-append (take m pkt) (blake2s_128mac key (take m pkt) ++ replicate 16 0),
  length-append (blake2s_128mac key (take m pkt)) (replicate 16 0),
  length-mac key (take m pkt),
  length-take m pkt h,
)

pub length-seal_init :
    (key : Option (List ℕ)) (pkt : List ℕ) → length pkt ≡ 148 → length (seal_init key pkt) ≡ 148
length-seal_init none pkt e = e
length-seal_init (some key) pkt e =
    ap length (seal_init-some key pkt e) ∙ length-sealed_at 116 key pkt (omega arith)

pub length-seal_response :
    (key : Option (List ℕ)) (pkt : List ℕ) → length pkt ≡ 92 → length (seal_response key pkt) ≡ 92
length-seal_response none pkt e = e
length-seal_response (some key) pkt e =
    ap length (seal_response-some key pkt e) ∙ length-sealed_at 60 key pkt (omega arith)

-- What MAC1 covers, behind the header word, is not changed by sealing: `n` bytes from byte 4 on.
covered :
    (n : ℕ) (key pkt : List ℕ)
    → n + 4 ≤ length pkt
    → take n (drop 4 (sealed_at (suc (suc (suc (suc n)))) key pkt)) ≡ take n (drop 4 pkt)
covered n key [] h = absurd (omega arith)
covered n key (a ∷ []) h = absurd (omega arith)
covered n key (a ∷ b ∷ []) h = absurd (omega arith)
covered n key (a ∷ b ∷ c ∷ []) h = absurd (omega arith)
covered n key (a ∷ b ∷ c ∷ d ∷ rest) h =
    take-append n (take n rest) _ (length-take n rest (omega arith))

-- A packet whose covered bytes are `t`, sealed.
abbrev with_macs : List ℕ → List ℕ → List ℕ
with_macs key t = t ++ (blake2s_128mac key t ++ replicate 16 0)

-- Sealing, then a new header word and a new seal: only the last seal is left.
pub seal_init-write-seal :
    (key : List ℕ) (other : Option (List ℕ)) (pkt : List ℕ) (h v : ℕ)
    → length pkt ≡ 148
    → seal_init (some key) (write32_le (seal_init other (write32_le pkt h)) v)
      ≡ seal_init (some key) (write32_le pkt v)
seal_init-write-seal key none pkt h v e = refl
seal_init-write-seal key (some k) pkt h v e =
    seal_init-some key (write32_le y v) (length-write32 y v (omega (arith, l)) ∙ l)
    ∙ ap (λ t. with_macs key (le32 v ++ take 112 (drop 4 t))) (seal_init-some k w e')
    ∙ ap (λ t. with_macs key (le32 v ++ t)) (covered 112 k w (omega (arith, e')))
    ∙ sym (seal_init-some key (write32_le pkt v) (length-write32 pkt v (omega arith) ∙ e))
  where
    w : List ℕ
    w = write32_le pkt h

    e' : length w ≡ 148
    e' = length-write32 pkt h (omega arith) ∙ e

    y : List ℕ
    y = seal_init (some k) w

    l : length y ≡ 148
    l = length-seal_init (some k) w e'

pub seal_response-write-seal :
    (key : List ℕ) (other : Option (List ℕ)) (pkt : List ℕ) (h v : ℕ)
    → length pkt ≡ 92
    → seal_response (some key) (write32_le (seal_response other (write32_le pkt h)) v)
      ≡ seal_response (some key) (write32_le pkt v)
seal_response-write-seal key none pkt h v e = refl
seal_response-write-seal key (some k) pkt h v e =
    seal_response-some key (write32_le y v) (length-write32 y v (omega (arith, l)) ∙ l)
    ∙ ap (λ t. with_macs key (le32 v ++ take 56 (drop 4 t))) (seal_response-some k w e')
    ∙ ap (λ t. with_macs key (le32 v ++ t)) (covered 56 k w (omega (arith, e')))
    ∙ sym (seal_response-some key (write32_le pkt v) (length-write32 pkt v (omega arith) ∙ e))
  where
    w : List ℕ
    w = write32_le pkt h

    e' : length w ≡ 92
    e' = length-write32 pkt h (omega arith) ∙ e

    y : List ℕ
    y = seal_response (some k) w

    l : length y ≡ 92
    l = length-seal_response (some k) w e'

read32-sealed_at :
    (n : ℕ) (key pkt : List ℕ)
    → 4 ≤ length pkt
    → read32_le (sealed_at (suc (suc (suc (suc n)))) key pkt) ≡ read32_le pkt
read32-sealed_at n key [] h = absurd (omega arith)
read32-sealed_at n key (a ∷ []) h = absurd (omega arith)
read32-sealed_at n key (a ∷ b ∷ []) h = absurd (omega arith)
read32-sealed_at n key (a ∷ b ∷ c ∷ []) h = absurd (omega arith)
read32-sealed_at n key (a ∷ b ∷ c ∷ d ∷ rest) h = refl

-- The header word outlives the seal.
pub read32-seal_init :
    (key : Option (List ℕ)) (pkt : List ℕ)
    → length pkt ≡ 148
    → read32_le (seal_init key pkt) ≡ read32_le pkt
read32-seal_init none pkt e = refl
read32-seal_init (some key) pkt e =
    ap read32_le (seal_init-some key pkt e) ∙ read32-sealed_at 112 key pkt (omega arith)

pub read32-seal_response :
    (key : Option (List ℕ)) (pkt : List ℕ)
    → length pkt ≡ 92
    → read32_le (seal_response key pkt) ≡ read32_le pkt
read32-seal_response none pkt e = refl
read32-seal_response (some key) pkt e =
    ap read32_le (seal_response-some key pkt e) ∙ read32-sealed_at 56 key pkt (omega arith)

pub drop-padded : (size seed : ℕ) (pkt : List ℕ) → drop size (padded size seed pkt) ≡ pkt
unfolding padded
drop-padded size seed pkt = ground (
  arith,
  length-fastrand_fill (fastrand_init seed) size,
  drop-append size (fastrand_fill (fastrand_init seed) size).0 pkt,
)

pub length-padded :
    (size seed : ℕ) (pkt : List ℕ) → length (padded size seed pkt) ≡ size + length pkt
unfolding padded
length-padded size seed pkt = ground (
  arith,
  length-fastrand_fill (fastrand_init seed) size,
  length-append (fastrand_fill (fastrand_init seed) size).0 pkt,
)

-- A handshake that was given a header `h` and sealed, and gets its own header and a new seal back.
-- An end that checks no MAC1 gets what an end without a key sent.
pub reseal_init :
    (key_in key_out : Option (List ℕ)) (pkt : List ℕ) (h : ℕ)
    → length pkt ≡ 148
    → read32_le pkt ≡ 1
    → (key_in ≡ none → key_out ≡ none)
    → seal_init key_in (write32_le (seal_init key_out (write32_le pkt h)) 1) ≡ seal_init key_in pkt
reseal_init (some k) key_out pkt h l t keys =
    seal_init-write-seal k key_out pkt h 1 l
    ∙ ap (seal_init (some k)) (write-read32 pkt 1 (omega arith) (omega arith) t)
reseal_init none none pkt h l t keys = write-read32 pkt 1 (omega arith) (omega arith) t
reseal_init none (some k) pkt h l t keys = cc (keys refl)

pub reseal_response :
    (key_in key_out : Option (List ℕ)) (pkt : List ℕ) (h : ℕ)
    → length pkt ≡ 92
    → read32_le pkt ≡ 2
    → (key_in ≡ none → key_out ≡ none)
    → seal_response key_in (write32_le (seal_response key_out (write32_le pkt h)) 2)
      ≡ seal_response key_in pkt
reseal_response (some k) key_out pkt h l t keys =
    seal_response-write-seal k key_out pkt h 2 l
    ∙ ap (seal_response (some k)) (write-read32 pkt 2 (omega arith) (omega arith) t)
reseal_response none none pkt h l t keys = write-read32 pkt 2 (omega arith) (omega arith) t
reseal_response none (some k) pkt h l t keys = cc (keys refl)
