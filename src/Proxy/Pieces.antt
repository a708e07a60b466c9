-- ===== src/Proxy/Pieces.antt =====
-- A socket that cuts a segmented send into pieces, for the tests.
use awg2_webui.Base.{
  length-drop, ℕ, zero, suc, ◌≤◌, ◌<◌, ◌≡◌, refl, ap, ◌∙◌, none, List, [], ◌∷◌, ◌++◌, length,
  length-append, take, drop, take-append, drop-append, arith,
}
use awg2_webui.Proxy.Gso.{Socket, IsSegmenting, IsReady}

unfoldable pub pieces_from : ℕ → ℕ → List ℕ → List (List ℕ)
pieces_from zero size bytes = []
pieces_from (suc fuel) size [] = []
pieces_from (suc fuel) size (x ∷ xs) =
    take size (x ∷ xs) ∷ pieces_from fuel size (drop size (x ∷ xs))

unfoldable pub pieces : ℕ → List ℕ → List (List ℕ)
unfolding pieces_from
pieces size bytes = pieces_from (length bytes) size bytes

-- Any fuel from the length on gives the same.
pieces_fuel :
    (f g size : ℕ) (xs : List ℕ)
    → length xs ≤ f
    → length xs ≤ g
    → pieces_from f (suc size) xs ≡ pieces_from g (suc size) xs
unfolding pieces_from
pieces_fuel zero zero size [] h k = refl
pieces_fuel zero (suc g) size [] h k = refl
pieces_fuel (suc f) zero size [] h k = refl
pieces_fuel (suc f) (suc g) size [] h k = refl
pieces_fuel zero g size (x ∷ xs) h k = absurd (omega arith)
pieces_fuel (suc f) zero size (x ∷ xs) h k = absurd (omega arith)
pieces_fuel (suc f) (suc g) size (x ∷ xs) h k =
    let shorter : length (drop size xs) ≤ length xs = omega (arith, length-drop size xs) in
    ap (λ l. take (suc size) (x ∷ xs) ∷ l)
      (pieces_fuel f g size (drop size xs) (omega (arith, shorter)) (omega (arith, shorter)))

pieces_full :
    (b rest : List ℕ) → 0 < length b → pieces (length b) (b ++ rest) ≡ b ∷ pieces (length b) rest
unfolding pieces pieces_from
pieces_full [] rest h = absurd (omega arith)
pieces_full (x ∷ xs) rest h =
    ap
      (λ l. l ∷ pieces_from (length (xs ++ rest)) (length (x ∷ xs)) (drop (length xs) (xs ++ rest)))
      (take-append (length (x ∷ xs)) (x ∷ xs) rest refl)
    ∙ ap (λ l. (x ∷ xs) ∷ pieces_from (length (xs ++ rest)) (length (x ∷ xs)) l)
        (drop-append (length xs) xs rest refl)
    ∙ ap (λ l. (x ∷ xs) ∷ l)
        (pieces_fuel (length (xs ++ rest)) (length rest) (length xs) rest
          (omega (arith, length-append xs rest)) (omega arith))

take_all_le : (n : ℕ) (xs : List ℕ) → length xs ≤ n → take n xs ≡ xs
take_all_le zero [] h = refl
take_all_le zero (x ∷ xs) h = absurd (omega arith)
take_all_le (suc n) [] h = refl
take_all_le (suc n) (x ∷ xs) h = ap (λ l. x ∷ l) (take_all_le n xs (omega arith))

drop_all_le : (n : ℕ) (xs : List ℕ) → length xs ≤ n → drop n xs ≡ []
drop_all_le zero [] h = refl
drop_all_le zero (x ∷ xs) h = absurd (omega arith)
drop_all_le (suc n) [] h = refl
drop_all_le (suc n) (x ∷ xs) h = drop_all_le n xs (omega arith)

no_pieces : (fuel size : ℕ) → pieces_from fuel size [] ≡ []
unfolding pieces_from
no_pieces zero size = refl
no_pieces (suc fuel) size = refl

pieces_last : (size : ℕ) (b : List ℕ) → 0 < length b → length b < size → pieces size b ≡ b ∷ []
unfolding pieces pieces_from
pieces_last size [] h k = absurd (omega arith)
pieces_last size (x ∷ xs) h k =
    ap (λ l. l ∷ pieces_from (length xs) size (drop size (x ∷ xs)))
      (take_all_le size (x ∷ xs) (omega arith))
    ∙ ap (λ l. (x ∷ xs) ∷ pieces_from (length xs) size l) (drop_all_le size (x ∷ xs) (omega arith))
    ∙ ap (λ l. (x ∷ xs) ∷ l) (no_pieces (length xs) size)

-- A socket that takes messages one at a time.
abbrev pub socket : Socket
unfolding pieces
socket = record { segment = pieces; refuses = λ size bytes. none; takes = λ rest. 1 }

pub socket-IsSegmenting : IsSegmenting socket.segment
unfolding socket
socket-IsSegmenting = record {
  nothing = λ size. unfold pieces in no_pieces 0 size;
  full = pieces_full;
  last = pieces_last;
}

pub socket-IsReady : IsReady socket
unfolding socket
socket-IsReady b bs = omega arith
