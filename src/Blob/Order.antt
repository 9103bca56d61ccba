-- ===== src/Blob/Order.antt =====
-- The comparison of blobs.
use native.Mathlib.Nat.{pow-suc, mul-le-mul_right}
use mathlib.Core.List.{reverse}
use salticidae.Base.{
  ℕ, ◌+◌, ◌*◌, ◌^◌, ◌<◌, ◌≤◌, ◌≡◌, refl, sym, ap, ◌∙◌, false, List, [], ◌∷◌, length, ◌==◌, ==_iff,
  length-reverse_aux, ltb, lt→ltb, ltb→lt, ltb-false, ltb-false→le, if-cases, Bool-cases, inl, inr,
  arith,
}
use salticidae.Bytes.{All, reverse_aux-All}
use salticidae.Blob.{Blob, less_words, is_less}

abbrev pub IsWord : ℕ → Type 0
IsWord w = w < 2 ^ 64

-- The number with these digits of 64 bits, the highest first.
abbrev pub number : List ℕ → ℕ
number [] = 0
number (w ∷ ws) = w * (2 ^ 64) ^ length ws + number ws

number-lt : (ws : List ℕ) → All IsWord ws → number ws < (2 ^ 64) ^ length ws
number-lt [] h = omega arith
number-lt (w ∷ ws) h =
    let q = (2 ^ 64) ^ length ws in
    let top : (w + 1) * q ≤ 2 ^ 64 * q = mul-le-mul_right q (omega (arith, h.0)) in
    omega (arith, number-lt ws h.1, top, pow-suc (2 ^ 64) (length ws))

-- The highest digit decides, if it differs.
digits_lt : (x y q u v : ℕ) → x < y → u < q → x * q + u < y * q + v
digits_lt x y q u v h k =
    let top : (x + 1) * q ≤ y * q = mul-le-mul_right q (omega arith) in omega (arith, top)

more_than : (x y : ℕ) → (x == y) ≡ false → y ≤ x → y < x
more_than x y n h = ground arith

-- A comparison is known from its two outcomes.
ltb-agrees : (a b c d : ℕ) → (a < b → c < d) → (b ≤ a → d ≤ c) → ltb a b ≡ ltb c d
ltb-agrees a b c d f g = elim (Bool-cases (ltb a b)) [
  | inl y ↦ y ∙ sym (lt→ltb c d (f (ltb→lt a b y)))
  | inr n ↦ n ∙ sym (ltb-false c d (g (ltb-false→le a b n)))
]

less_words_lem :
    (xs ys : List ℕ)
    → length xs ≡ length ys
    → All IsWord xs
    → All IsWord ys
    → less_words xs ys ≡ ltb (number xs) (number ys)
unfolding less_words
less_words_lem [] [] e h k = refl
less_words_lem [] (y ∷ ys) e h k = absurd (omega (arith, e))
less_words_lem (x ∷ xs) [] e h k = absurd (omega (arith, e))
less_words_lem (x ∷ xs) (y ∷ ys) e h k =
    let q = (2 ^ 64) ^ length xs in
    let n : length xs ≡ length ys = omega (arith, e) in
    let rest : less_words xs ys ≡ ltb (number xs) (number ys) = less_words_lem xs ys n h.1 k.1 in
    let u : number xs < q = number-lt xs h.1 in
    let v : number ys < q = rw n (number-lt ys k.1) in
    rw (sym n) (
      if-cases (λ b. b ≡ ltb (x * q + number xs) (y * q + number ys)) (x == y) (less_words xs ys)
        (ltb x y)
        (λ same.
          rest
          ∙ (let eq : x ≡ y = (==_iff x y).0 same in
              let eq_q : x * q ≡ y * q = ap (λ z. z * q) eq in
              ltb-agrees (number xs) (number ys) (x * q + number xs) (y * q + number ys)
                (λ l. omega (arith, eq_q)) (λ l. omega (arith, eq_q))))
        (λ other.
          ltb-agrees x y (x * q + number xs) (y * q + number ys)
            (λ l. digits_lt x y q (number xs) (number ys) l u)
            (λ l.
              omega (arith, digits_lt y x q (number ys) (number xs) (more_than x y other l) v))))

-- `operator<` compares the numbers that the words make, the last word being the highest.
pub is_less_lem :
    (a b : Blob)
    → length a.words ≡ length b.words
    → All IsWord a.words
    → All IsWord b.words
    → is_less a b ≡ ltb (number (reverse a.words)) (number (reverse b.words))
unfolding is_less
is_less_lem a b e h k =
    less_words_lem (reverse a.words) (reverse b.words)
      (omega (arith, e, length-reverse_aux a.words [], length-reverse_aux b.words []))
      (reverse_aux-All IsWord a.words [] h tt) (reverse_aux-All IsWord b.words [] k tt)
