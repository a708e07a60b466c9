-- ===== src/Base/Text.antt =====
-- C strings: the bytes before the terminating zero, and the case-insensitive comparison.
use Prim.Native.Nat.{ℕ, ◌+◌}
use Prim.Native.Char.{code}
use Prim.Native.String.{String}
use mathlib.Core.Bool.{Bool, true, false, ◌&&◌, ◌||◌}
use mathlib.Core.Option.{Option, none, some}
use mathlib.Core.List.{List, [], ◌∷◌}
use awg2_webui.Base.Test.{leb, ◌==◌, if◌then◌else◌}

-- The bytes of an ASCII literal.
abbrev pub codes : String → List ℕ
codes String.[] = []
codes (String.◌∷◌ c s) = code c ∷ codes s

-- `(c >= 'A' && c <= 'Z') ? (char)(c + 32) : c`
unfoldable pub fold_case : ℕ → ℕ
fold_case c = if leb b'A' c && leb c b'Z' then c + 32 else c

unfoldable pub streqi : List ℕ → List ℕ → Bool
unfolding fold_case
streqi [] [] = true
streqi [] (_ ∷ _) = false
streqi (_ ∷ _) [] = false
streqi (a ∷ s) (b ∷ t) = fold_case a == fold_case b && streqi s t

-- The string in front of the first such byte, and what follows the byte.
unfoldable pub split_at : ℕ → List ℕ → Option (List ℕ × List ℕ)
split_at sep [] = none
split_at sep (c ∷ s) =
    let rest = split_at sep s in
    if c == sep then some ([], s) else elim rest [ none ↦ none | some x ↦ some (c ∷ x.0, x.1) ]

unfoldable pub has_byte : ℕ → List ℕ → Bool
has_byte sep [] = false
has_byte sep (c ∷ s) = c == sep || has_byte sep s
