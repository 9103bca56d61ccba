-- ===== src/Tests/Texts.antt =====
-- A string of two words and a delimiter at its end.
use salticidae.Base.{ℕ, ◌≡◌, List, [], ◌∷◌, some, arith}
use salticidae.Bytes.{All}
use salticidae.Text.{split}
use salticidae.Text.Splitting.{IsFree, join, split_lem}

split_example :
    (x : List ℕ) × (ys : List (List ℕ)) × (split (104 ∷ 105 ∷ 58 ∷ 111 ∷ 58 ∷ []) (58 ∷ [])
      ≡ some (x ∷ ys))
    × (join (58 ∷ []) x ys ≡ 104 ∷ 105 ∷ 58 ∷ 111 ∷ 58 ∷ [])
    × All (IsFree (58 ∷ [])) (x ∷ ys)
split_example = split_lem (104 ∷ 105 ∷ 58 ∷ 111 ∷ 58 ∷ []) (58 ∷ []) (omega arith)
