-- ===== src/Blake2s.antt =====
-- src/blake2s.c: BLAKE2s, and the MAC1 fields of WireGuard handshakes that it fills.
pub mod Chunks
mod Tests
use awg2_webui.Base.{
  ℕ, zero, suc, ◌+◌, ◌-◌, ◌*◌, ◌^◌, Bool, true, false, Option, none, some, List, [], ◌∷◌, ◌++◌,
  bit_or, bit_xor, ltb, leb, if◌then◌else◌, length, get_or, set, take, drop, replicate, fill_from,
  u32, shr, shl, le32, byte_at, codes,
}

abbrev blake2s_iv : List ℕ
blake2s_iv =
    0x6a09e667 ∷ 0xbb67ae85 ∷ 0x3c6ef372 ∷ 0xa54ff53a ∷ 0x510e527f ∷ 0x9b05688c ∷ 0x1f83d9ab
    ∷ 0x5be0cd19 ∷ []

abbrev blake2s_sigma : List (List ℕ)
blake2s_sigma =
    (0 ∷ 1 ∷ 2 ∷ 3 ∷ 4 ∷ 5 ∷ 6 ∷ 7 ∷ 8 ∷ 9 ∷ 10 ∷ 11 ∷ 12 ∷ 13 ∷ 14 ∷ 15 ∷ [])
    ∷ (14 ∷ 10 ∷ 4 ∷ 8 ∷ 9 ∷ 15 ∷ 13 ∷ 6 ∷ 1 ∷ 12 ∷ 0 ∷ 2 ∷ 11 ∷ 7 ∷ 5 ∷ 3 ∷ [])
    ∷ (11 ∷ 8 ∷ 12 ∷ 0 ∷ 5 ∷ 2 ∷ 15 ∷ 13 ∷ 10 ∷ 14 ∷ 3 ∷ 6 ∷ 7 ∷ 1 ∷ 9 ∷ 4 ∷ [])
    ∷ (7 ∷ 9 ∷ 3 ∷ 1 ∷ 13 ∷ 12 ∷ 11 ∷ 14 ∷ 2 ∷ 6 ∷ 5 ∷ 10 ∷ 4 ∷ 0 ∷ 15 ∷ 8 ∷ [])
    ∷ (9 ∷ 0 ∷ 5 ∷ 7 ∷ 2 ∷ 4 ∷ 10 ∷ 15 ∷ 14 ∷ 1 ∷ 11 ∷ 12 ∷ 6 ∷ 8 ∷ 3 ∷ 13 ∷ [])
    ∷ (2 ∷ 12 ∷ 6 ∷ 10 ∷ 0 ∷ 11 ∷ 8 ∷ 3 ∷ 4 ∷ 13 ∷ 7 ∷ 5 ∷ 15 ∷ 14 ∷ 1 ∷ 9 ∷ [])
    ∷ (12 ∷ 5 ∷ 1 ∷ 15 ∷ 14 ∷ 13 ∷ 4 ∷ 10 ∷ 0 ∷ 7 ∷ 6 ∷ 3 ∷ 9 ∷ 2 ∷ 8 ∷ 11 ∷ [])
    ∷ (13 ∷ 11 ∷ 7 ∷ 14 ∷ 12 ∷ 1 ∷ 3 ∷ 9 ∷ 5 ∷ 0 ∷ 15 ∷ 4 ∷ 8 ∷ 6 ∷ 2 ∷ 10 ∷ [])
    ∷ (6 ∷ 15 ∷ 14 ∷ 9 ∷ 11 ∷ 3 ∷ 0 ∷ 8 ∷ 12 ∷ 2 ∷ 13 ∷ 7 ∷ 1 ∷ 4 ∷ 10 ∷ 5 ∷ [])
    ∷ (10 ∷ 2 ∷ 8 ∷ 4 ∷ 7 ∷ 6 ∷ 1 ∷ 5 ∷ 15 ∷ 11 ∷ 9 ∷ 14 ∷ 3 ∷ 12 ∷ 13 ∷ 0 ∷ [])
    ∷ []

unfoldable pub rotr32 : ℕ → ℕ → ℕ
rotr32 x n = bit_or (shr x n) (u32 (shl x (32 - n)))

unfoldable pub load32_le : List ℕ → ℕ → ℕ
load32_le p i =
    byte_at p i
    + shl (byte_at p (i + 1)) 8
    + shl (byte_at p (i + 2)) 16
    + shl (byte_at p (i + 3)) 24

abbrev word : List ℕ → ℕ → ℕ
word v i = get_or v i 0

-- The macro `G`: eight assignments to the working vector.
unfoldable pub mix : List ℕ → ℕ → ℕ → ℕ → ℕ → ℕ → ℕ → List ℕ
unfolding rotr32
mix v a b c d x y =
    let a1 = u32 (word v a + word v b + x) in
    let d1 = rotr32 (bit_xor (word v d) a1) 16 in
    let c1 = u32 (word v c + d1) in
    let b1 = rotr32 (bit_xor (word v b) c1) 12 in
    let a2 = u32 (a1 + b1 + y) in
    let d2 = rotr32 (bit_xor d1 a2) 8 in
    let c2 = u32 (c1 + d2) in
    let b2 = rotr32 (bit_xor b1 c2) 7 in set (set (set (set v a a2) b b2) c c2) d d2

-- One of the ten rounds, for a row `s` of the permutation table.
unfoldable pub round : List ℕ → List ℕ → List ℕ → List ℕ
unfolding mix
round m v s =
    let pick = λ (i : ℕ). word m (word s i) in
    let v = mix v 0 4 8 12 (pick 0) (pick 1) in
    let v = mix v 1 5 9 13 (pick 2) (pick 3) in
    let v = mix v 2 6 10 14 (pick 4) (pick 5) in
    let v = mix v 3 7 11 15 (pick 6) (pick 7) in
    let v = mix v 0 5 10 15 (pick 8) (pick 9) in
    let v = mix v 1 6 11 12 (pick 10) (pick 11) in
    let v = mix v 2 7 8 13 (pick 12) (pick 13) in mix v 3 4 9 14 (pick 14) (pick 15)

unfoldable pub rounds : List ℕ → List ℕ → List (List ℕ) → List ℕ
unfolding round
rounds m v [] = v
rounds m v (s ∷ rows) = rounds m (round m v s) rows

unfoldable pub blake2s_compress : List ℕ → List ℕ → ℕ → ℕ → Bool → List ℕ
unfolding rounds load32_le
blake2s_compress h block t0 t1 last =
    let m = fill_from 0 16 (λ i. load32_le block (i * 4)) in
    let f0 = if last then bit_xor 0x1f83d9ab 0xffffffff else 0x1f83d9ab in
    let v =
      rounds m
        (fill_from 0 8 (λ i. word h i)
          ++ (0x6a09e667
              ∷ 0xbb67ae85
              ∷ 0x3c6ef372
              ∷ 0xa54ff53a
              ∷ bit_xor t0 0x510e527f
              ∷ bit_xor t1 0x9b05688c
              ∷ f0
              ∷ 0x5be0cd19
              ∷ []))
        blake2s_sigma in
    fill_from 0 8 (λ i. bit_xor (word h i) (bit_xor (word v i) (word v (i + 8))))

-- `blake2s_state`; `buf[0..buflen)` is the list `buf`, the zeros behind it are put in by `final`.
pub record Blake2sState : Type 0 where
  pub h : List ℕ
  pub t0 : ℕ
  pub t1 : ℕ
  pub buf : List ℕ

-- `blake2s_init`: the key, if there is one, fills the first block.
unfoldable pub blake2s_init : ℕ → List ℕ → Blake2sState
blake2s_init nn key = record {
  h =
      set blake2s_iv 0
        (bit_xor (word blake2s_iv 0) (bit_or 0x01010000 (bit_or (shl (length key) 8) nn)));
  t0 = 0;
  t1 = 0;
  buf = if ltb 0 (length key) then key ++ replicate (64 - length key) 0 else [];
}

-- One whole block: the counter goes on by 64, with carry, and the block is compressed.
unfoldable pub absorb : Blake2sState → List ℕ → Blake2sState
unfolding blake2s_compress
absorb st block =
    let t0 = u32 (st.t0 + 64) in
    let t1 = if ltb t0 64 then u32 (st.t1 + 1) else st.t1 in
    record { h = blake2s_compress st.h block t0 t1 false; t0 = t0; t1 = t1; buf = [] }

-- `while (len > 64)`, on fuel, with the copy of the rest behind it. Each turn takes 64 bytes, so
-- the length of the input is fuel enough.
unfoldable pub absorb_all : ℕ → Blake2sState → List ℕ → Blake2sState
unfolding absorb
absorb_all zero st p = record st { buf = p }
absorb_all (suc fuel) st p = elim (ltb 64 (length p)) [
  | true ↦ absorb_all fuel (absorb st (take 64 p)) (drop 64 p)
  | false ↦ record st { buf = p }
]

-- `blake2s_update`. The cast of the length to `int` in the comparison is left out: the callers of the
-- program pass at most 116 bytes, and it keeps every length below 2 ^ 31.
unfoldable pub blake2s_update : Blake2sState → List ℕ → Blake2sState
unfolding absorb_all
blake2s_update st p =
    let fill = 64 - length st.buf in
    let rest = absorb_all (length p) (absorb st (st.buf ++ take fill p)) (drop fill p) in
    if ltb fill (length p) then rest else record st { buf = st.buf ++ p }

-- `blake2s_final`: the 32 bytes of the eight words.
unfoldable pub blake2s_final : Blake2sState → List ℕ
unfolding blake2s_compress
blake2s_final st =
    let n = length st.buf in
    let t0 = u32 (st.t0 + n) in
    let t1 = if ltb t0 n then u32 (st.t1 + 1) else st.t1 in
    let h = blake2s_compress st.h (st.buf ++ replicate (64 - n) 0) t0 t1 true in
    le32 (word h 0)
    ++ (le32 (word h 1)
        ++ (le32 (word h 2)
            ++ (le32 (word h 3)
                ++ (le32 (word h 4) ++ (le32 (word h 5) ++ (le32 (word h 6) ++ le32 (word h 7)))))))

unfoldable pub blake2s_256 : List ℕ → List ℕ
unfolding blake2s_init blake2s_update blake2s_final
blake2s_256 p = blake2s_final (blake2s_update (blake2s_init 32 []) p)

unfoldable pub blake2s_128mac : List ℕ → List ℕ → List ℕ
unfolding blake2s_init blake2s_update blake2s_final
blake2s_128mac key p = take 16 (blake2s_final (blake2s_update (blake2s_init 16 key) p))

unfoldable pub compute_mac1_key : List ℕ → List ℕ
unfolding blake2s_256
compute_mac1_key pubkey = blake2s_256 (codes "mac1----" ++ pubkey)

-- `memcpy(dst + off, src, len(src))`
abbrev pub overwrite : ℕ → List ℕ → List ℕ → List ℕ
overwrite off src dst = take off dst ++ (src ++ drop (off + length src) dst)

-- MAC1 of a handshake initiation, at [116, 132), over the bytes before it.
unfoldable pub recompute_mac1 : List ℕ → List ℕ → List ℕ
recompute_mac1 buf key = overwrite 116 (blake2s_128mac key (take 116 buf)) buf

-- MAC1 of a handshake response, at [60, 76).
unfoldable pub recompute_mac1_response : List ℕ → List ℕ → List ℕ
recompute_mac1_response buf key = overwrite 60 (blake2s_128mac key (take 60 buf)) buf
