-- ===== src/Proxy/Gso.antt =====
-- `send_gso` and `proxy_io_send_batch_gso` of src/proxy_io_batch.c: how a batch goes to the socket. The
-- socket is a parameter: what a send with `UDP_SEGMENT` is cut into, whether it is taken, and how many
-- messages a call of `sendmmsg` takes.
use mathlib.Core.List.{append-nil}
use awg2_webui.Base.{
  length-drop, take-append-drop, ℕ, zero, suc, ◌≤◌, ◌<◌, ◌^◌, ◌≡◌, refl, ap, sym, ◌∙◌, Bool, true,
  false, ◌&&◌, ◌||◌, Option, some, none, List, [], ◌∷◌, ◌++◌, ltb, leb, ◌==◌, if◌then◌else◌,
  if_true, if_false, length, take, drop, low_bits, arith, All, Bool-cases, inl, inr, eq_of_==-true,
  lt_of_ltb-true,
}

pub data Errno : Type 0 where
  enoprotoopt eio other_error : Errno

-- `segment size bytes` are the datagrams of a segmented send, `refuses size bytes` the error of it, where
-- there is one, and `takes rest` what `sendmmsg` returns, 0 for an error.
pub record Socket : Type 0 where
  pub segment : ℕ → List ℕ → List (List ℕ)
  pub refuses : ℕ → List ℕ → Option Errno
  pub takes : List (List ℕ) → ℕ

unfoldable pub gather : List (List ℕ) → List ℕ
gather [] = []
gather (b ∷ bs) = b ++ gather bs

-- `gso_count`: the buffers of that size at the front, and a shorter one behind them.
unfoldable pub same_size : ℕ → List (List ℕ) → ℕ
same_size size [] = 0
same_size size (b ∷ bs) =
    let more = same_size size bs in
    if length b == size then suc more else if ltb (length b) size then 1 else 0

-- What `send_gso` returns: 0, the number of buffers sent, or an error.
pub data GsoResult : Type 0 where
  gso_sent : (count : ℕ) → GsoResult
  gso_failed : Errno → GsoResult

abbrev gso_result : ℕ → Option Errno → GsoResult
gso_result count none = gso_sent count
gso_result count (some e) = gso_failed e

-- The segment size is a 16-bit field of the message.
unfoldable pub send_gso : Socket → List (List ℕ) → GsoResult
unfolding same_size gather
send_gso socket [] = gso_sent 0
send_gso socket (b ∷ bs) =
    let count = same_size (length b) (b ∷ bs) in
    if leb (length (b ∷ bs)) 1 || leb count 1
    then gso_sent 0
    else gso_result count (socket.refuses (low_bits (length b) 16) (gather (take count (b ∷ bs))))

-- The datagrams that leave by `send_gso`.
unfoldable pub gso_datagrams : Socket → List (List ℕ) → GsoResult → List (List ℕ)
unfolding gather
gso_datagrams socket batch (gso_failed e) = []
gso_datagrams socket [] (gso_sent count) = []
gso_datagrams socket (b ∷ bs) (gso_sent count) =
    if count == 0
    then []
    else socket.segment (low_bits (length b) 16) (gather (take count (b ∷ bs)))

-- The loop over `sendmmsg`, on fuel.
unfoldable pub send_rest : Socket → ℕ → List (List ℕ) → List (List ℕ)
send_rest socket zero rest = []
send_rest socket (suc fuel) [] = []
send_rest socket (suc fuel) (b ∷ bs) =
    let r = socket.takes (b ∷ bs) in
    let more = send_rest socket fuel (drop r (b ∷ bs)) in
    if r == 0 then [] else take r (b ∷ bs) ++ more

abbrev pub sent_count : GsoResult → ℕ
sent_count (gso_sent count) = count
sent_count (gso_failed e) = 0

-- An error that says that the socket has no segmentation turns `gso_ok` off.
abbrev pub still_ok : GsoResult → Bool
still_ok (gso_sent count) = true
still_ok (gso_failed enoprotoopt) = false
still_ok (gso_failed eio) = false
still_ok (gso_failed other_error) = true

-- `proxy_io_send_batch_gso`: the datagrams that leave, and `gso_ok`. `named` is `addr || fd != listen_fd`.
unfoldable pub proxy_io_send_batch_gso : Socket → Bool → Bool → List (List ℕ) → List (List ℕ) × Bool
unfolding send_gso gso_datagrams send_rest
proxy_io_send_batch_gso socket gso_ok named batch =
    let result = send_gso socket batch in
    let sent = sent_count result in
    if gso_ok && (ltb 1 (length batch) && named)
    then (
      gso_datagrams socket batch result ++ send_rest socket (length batch) (drop sent batch),
      still_ok result,
    )
    else (send_rest socket (length batch) batch, gso_ok)

-- What udp(7) says of `UDP_SEGMENT`: the bytes go out in pieces of the size, with a shorter last one.
pub record IsSegmenting (segment : ℕ → List ℕ → List (List ℕ)) : Type 0 where
  pub nothing : (size : ℕ) → segment size [] ≡ []
  pub full :
      (b rest : List ℕ)
      → 0 < length b
      → segment (length b) (b ++ rest) ≡ b ∷ segment (length b) rest
  pub last : (size : ℕ) (b : List ℕ) → 0 < length b → length b < size → segment size b ≡ b ∷ []

-- A socket that takes at least one message whenever there is one.
abbrev pub IsReady : Socket → Type 0
IsReady socket = (b : List ℕ) (bs : List (List ℕ)) → 0 < socket.takes (b ∷ bs)

-- Buffers that hold a packet.
abbrev pub IsPacket : List ℕ → Type 0
IsPacket b = (0 < length b) × (length b < 2 ^ 16)

module _ (socket : Socket) (ready : IsReady socket) where
  -- As much fuel as there are messages is enough.
  send_rest_all :
      (fuel : ℕ) (rest : List (List ℕ)) → length rest ≤ fuel → send_rest socket fuel rest ≡ rest
  unfolding send_rest
  send_rest_all zero [] h = refl
  send_rest_all zero (b ∷ bs) h = absurd (omega arith)
  send_rest_all (suc fuel) [] h = refl
  send_rest_all (suc fuel) (b ∷ bs) h =
      let r : ℕ = socket.takes (b ∷ bs) in
      let some_taken : 0 < r = ready b bs in
      let shorter : length (drop r (b ∷ bs)) < length (b ∷ bs) =
        omega (arith, length-drop r (b ∷ bs), some_taken) in
      if_false (r == 0) (ground (arith, some_taken)) [] _
      ∙ ap (λ l. take r (b ∷ bs) ++ l)
          (send_rest_all fuel (drop r (b ∷ bs)) (omega (arith, shorter, h)))
      ∙ take-append-drop r (b ∷ bs)

  module _ (segmenting : IsSegmenting socket.segment) where
    segment_same :
        (size : ℕ) (bs : List (List ℕ))
        → All IsPacket bs
        → socket.segment size (gather (take (same_size size bs) bs)) ≡ take (same_size size bs) bs
    unfolding gather same_size
    segment_same size [] h = segmenting.nothing size
    segment_same size (b ∷ bs) h = elim (Bool-cases (length b == size)) [
      | inl same ↦ rw (same) (
          ap (λ n. socket.segment n (b ++ gather (take (same_size size bs) bs)))
            (sym (eq_of_==-true (length b) size same))
          ∙ segmenting.full b (gather (take (same_size size bs) bs)) h.0.0
          ∙ ap (λ n. b ∷ socket.segment n (gather (take (same_size size bs) bs)))
              (eq_of_==-true (length b) size same)
          ∙ ap (λ l. b ∷ l) (segment_same size bs h.1))
      | inr other ↦ elim (Bool-cases (ltb (length b) size)) [
        | inl less ↦
            rw (other, less)
              (ap (socket.segment size) (append-nil b)
                ∙ segmenting.last size b h.0.0 (lt_of_ltb-true (length b) size less))
        | inr more ↦ rw (other, more) (segmenting.nothing size)
      ]
    ]

    gso_datagrams-result :
        (b : List ℕ) (bs : List (List ℕ)) (e : Option Errno)
        → All IsPacket (b ∷ bs)
        → let r = gso_result (same_size (length b) (b ∷ bs)) e in
          gso_datagrams socket (b ∷ bs) r ≡ take (sent_count r) (b ∷ bs)
    unfolding gso_datagrams
    gso_datagrams-result b bs (some e) h = refl
    gso_datagrams-result b bs none h =
        let count : ℕ = same_size (length b) (b ∷ bs) in
        elim (Bool-cases (count == 0)) [
          | inl e ↦
              if_true (count == 0) e [] _
              ∙ ap (λ n. take n (b ∷ bs)) (sym (eq_of_==-true count 0 e))
          | inr e ↦
              if_false (count == 0) e [] _
              ∙ ap (λ n. socket.segment n (gather (take count (b ∷ bs)))) (omega (arith, h.0.1))
              ∙ segment_same (length b) (b ∷ bs) h
        ]

    -- What leaves by `send_gso` are the first messages, as many as it counts.
    send_gso-datagrams :
        (batch : List (List ℕ))
        → All IsPacket batch
        → gso_datagrams socket batch (send_gso socket batch)
          ≡ take (sent_count (send_gso socket batch)) batch
    unfolding send_gso gso_datagrams
    send_gso-datagrams [] h = refl
    send_gso-datagrams (b ∷ bs) h =
        let count : ℕ = same_size (length b) (b ∷ bs) in
        let test : Bool = leb (length (b ∷ bs)) 1 || leb count 1 in
        let result : GsoResult =
          gso_result count
            (socket.refuses (low_bits (length b) 16) (gather (take count (b ∷ bs)))) in
        elim (Bool-cases test) [
          | inl e ↦
              let none_sent : send_gso socket (b ∷ bs) ≡ gso_sent 0 =
                if_true test e (gso_sent 0) result in
              ap (gso_datagrams socket (b ∷ bs)) none_sent
              ∙ ap (λ r. take (sent_count r) (b ∷ bs)) (sym none_sent)
          | inr e ↦
              let some_sent : send_gso socket (b ∷ bs) ≡ result =
                if_false test e (gso_sent 0) result in
              ap (gso_datagrams socket (b ∷ bs)) some_sent
              ∙ gso_datagrams-result b bs
                  (socket.refuses (low_bits (length b) 16) (gather (take count (b ∷ bs)))) h
              ∙ ap (λ r. take (sent_count r) (b ∷ bs)) (sym some_sent)
        ]

    -- A socket that segments as documented, and takes a message whenever there is one, sends exactly the
    -- packets of the batch, in order, whether or not the segmented send is tried, taken or refused.
    -- The packets have at least one byte and fewer than 65536.
    pub proxy_io_send_batch_gso_complete :
        (gso_ok named : Bool) (batch : List (List ℕ))
        → All IsPacket batch
        → (proxy_io_send_batch_gso socket gso_ok named batch).0 ≡ batch
    unfolding proxy_io_send_batch_gso
    proxy_io_send_batch_gso_complete gso_ok named batch h =
        let sent : ℕ = sent_count (send_gso socket batch) in
        elim (Bool-cases (gso_ok && (ltb 1 (length batch) && named))) [
          | inl e ↦
              ap (λ (x : List (List ℕ) × Bool). x.0) (if_true _ e _ _)
              ∙ ap (λ l. l ++ send_rest socket (length batch) (drop sent batch))
                  (send_gso-datagrams batch h)
              ∙ ap (λ l. take sent batch ++ l)
                  (send_rest_all (length batch) (drop sent batch)
                    (omega (arith, length-drop sent batch)))
              ∙ take-append-drop sent batch
          | inr e ↦
              ap (λ (x : List (List ℕ) × Bool). x.0) (if_false _ e _ _)
              ∙ send_rest_all (length batch) batch (omega arith)
        ]
