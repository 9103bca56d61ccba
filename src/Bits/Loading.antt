-- ===== src/Bits/Loading.antt =====
-- Which byte arrays `load` can read.
use Prim.Native.Nat.{bit_or}
use salticidae.Base.{
  ℕ, zero, suc, ◌+◌, ◌-◌, ◌*◌, ◌/◌, ◌%◌, ◌^◌, ◌≤◌, ◌<◌, ◌≡◌, ◌⊎◌, inl, inr, refl, ap, ◌∙◌, Option,
  none, some, List, [], ◌∷◌, length, drop, leb, ltb, if-cases, arith,
}
use salticidae.Bits.{Bits, n_data, int_shift, load_word, load_words, joined, loaded, load}

abbrev IsSome : Option ℕ → Type 0
IsSome o = (y : ℕ) × (o ≡ some y)

int_shift_lem : (b k : ℕ) → k < 32 → IsSome (int_shift b k)
unfolding int_shift
int_shift_lem b k h =
    if-cases IsSome (leb 32 k) _ _ (λ y. absurd (ground (arith, h, y)))
      (λ n.
        if-cases IsSome (ltb (b * 2 ^ k % 2 ^ 32) (2 ^ 31)) _ _ (λ y. (_, refl)) (λ n. (_, refl)))

-- One byte, where the shift is defined.
step_lem :
    (j k b : ℕ) (bytes : List ℕ) (x : ℕ)
    → k < 32
    → (y : ℕ) × (load_word (suc j) k (b ∷ bytes) x ≡ load_word j (k + 8) bytes y)
unfolding load_word
step_lem j k b bytes x h = let (y, e) = int_shift_lem b k h in (bit_or x y, rw (e, load_word) refl)

fifth_lem : (a b c d e : ℕ) (bytes : List ℕ) → load_word 8 0 (a ∷ b ∷ c ∷ d ∷ e ∷ bytes) 0 ≡ none
unfolding load_word int_shift
fifth_lem a b c d e bytes =
    let (w, p) = step_lem 7 0 a (b ∷ c ∷ d ∷ e ∷ bytes) 0 (omega arith) in
    let (x, q) = step_lem 6 8 b (c ∷ d ∷ e ∷ bytes) w (omega arith) in
    let (y, r) = step_lem 5 16 c (d ∷ e ∷ bytes) x (omega arith) in
    let (z, s) = step_lem 4 24 d (e ∷ bytes) y (omega arith) in p ∙ q ∙ r ∙ s

load_word_empty : (j k x : ℕ) → IsSome (load_word j k [] x)
unfolding load_word
load_word_empty zero k x = (x, refl)
load_word_empty (suc j) k x = load_word_empty j (k + 8) x

-- At most four bytes are read as a word.
load_word-IsSome :
    (j k : ℕ) (bytes : List ℕ) (x : ℕ) → k + 8 * length bytes ≤ 32 → IsSome (load_word j k bytes x)
unfolding load_word
load_word-IsSome zero k bytes x h = (x, refl)
load_word-IsSome (suc j) k [] x h = load_word_empty j (k + 8) x
load_word-IsSome (suc j) k (b ∷ bytes) x h =
    let (y, e) = step_lem j k b bytes x (omega (arith, h)) in
    let (z, f) = load_word-IsSome j (k + 8) bytes y (omega (arith, h)) in (z, e ∙ f)

module _ (bs : List ℕ) (h : 8 * length bs + 63 < 2 ^ 32) where
  load-loaded :
      (k : ℕ) → n_data (length bs * 8) ≡ k → load bs ≡ loaded (length bs * 8) (load_words k bs)
  unfolding load
  load-loaded k e =
      let same : length bs * 8 % 2 ^ 32 ≡ length bs * 8 = omega (arith, h) in
      ap (λ n. loaded n (load_words (n_data n) bs)) same
      ∙ ap (λ n. loaded (length bs * 8) (load_words n bs)) e

  -- One word.
  few :
      length bs ≤ 4
      → n_data (length bs * 8) ≡ 1
      → (b : Bits) × (load bs ≡ some b) × (b.nbits ≡ 8 * length bs)
  unfolding load_words loaded joined
  few small one =
      let (w, e) = load_word-IsSome 8 0 bs 0 (omega (arith, small)) in
      (
        record { words = w ∷ []; nbits = length bs * 8 },
        load-loaded 1 one ∙ ap (λ o. loaded (length bs * 8) (joined o (some []))) e,
        omega arith,
      )

  many : load_word 8 0 bs 0 ≡ none → 5 ≤ length bs → load bs ≡ none
  unfolding load_words loaded joined n_data
  many bad large =
      let k = (length bs * 8 + 63) / 64 - 1 in
      load-loaded (suc k) (omega (arith, h, large))
      ∙ ap (λ o. loaded (length bs * 8) (joined o (load_words k (drop 8 bs)))) bad

-- Five bytes or more cannot be loaded, since the fifth is shifted by the width of an int. Fewer bytes can, and
-- give eight bits each. The condition is that the number of bits can be rounded up without a wrap.
pub load_lem :
    (bs : List ℕ)
    → 8 * length bs + 63 < 2 ^ 32
    → ((5 ≤ length bs) × (load bs ≡ none))
      ⊎ ((length bs ≤ 4) × ((b : Bits) × (load bs ≡ some b) × (b.nbits ≡ 8 * length bs)))
unfolding n_data load load_words loaded
load_lem [] h = inr (omega arith, (_, refl, refl))
load_lem (a ∷ []) h = inr (omega arith, few (a ∷ []) h (omega arith) refl)
load_lem (a ∷ b ∷ []) h = inr (omega arith, few (a ∷ b ∷ []) h (omega arith) refl)
load_lem (a ∷ b ∷ c ∷ []) h = inr (omega arith, few (a ∷ b ∷ c ∷ []) h (omega arith) refl)
load_lem (a ∷ b ∷ c ∷ d ∷ []) h = inr (omega arith, few (a ∷ b ∷ c ∷ d ∷ []) h (omega arith) refl)
load_lem (a ∷ b ∷ c ∷ d ∷ e ∷ bytes) h =
    inl (omega arith, many (a ∷ b ∷ c ∷ d ∷ e ∷ bytes) h (fifth_lem a b c d e bytes) (omega arith))
