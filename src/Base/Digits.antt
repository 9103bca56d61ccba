-- ===== src/Base/Digits.antt =====
-- The binary digits of a number, and what the bitwise operations do to them.
use Prim.Native.Nat.{
  ℕ, zero, suc, ◌+◌, ◌-◌, ◌*◌, ◌/◌, ◌%◌, ◌^◌, ◌≤◌, ◌<◌, min, bit_and, bit_xor, bit_and-bitwise,
  bit_xor-bitwise, digits, bitwise, differ,
}
use native.Mathlib.Nat.{mul_assoc, pow-suc, pow-succ', div-div-eq-div-mul}
use mathlib.Core.Path.{◌≡◌, refl, sym, ap, ◌∙◌}
use native.Mathlib.Omega.{arith}
use salticidae.Base.Tests.{◌==◌, if◌then◌else◌}

abbrev pub digit : ℕ → ℕ → ℕ
digit k w = w / 2 ^ k % 2

digit-zero : (w : ℕ) → digit 0 w ≡ w % 2
digit-zero w = omega arith

pub digit-suc : (k w : ℕ) → digit (suc k) w ≡ digit k (w / 2)
digit-suc k w =
    ap (λ n. n % 2) (ap (λ n. w / n) (pow-succ' 2 k) ∙ sym (div-div-eq-div-mul w 2 (2 ^ k)))

-- An operation on digits, `op`, where `rest` takes what is left of the second number.
module _ (rest : ℕ → ℕ) (op : ℕ → ℕ → ℕ) where
  -- A count above the number needs no more.
  spare : (n x y : ℕ) → x ≤ n → digits rest op (suc n) x y ≡ digits rest op n x y
  spare n zero y h = both_end n
    where
      both_end : (n : ℕ) → rest y ≡ digits rest op n zero y
      both_end zero = refl
      both_end (suc n) = refl
  spare zero (suc x) y h = absurd (omega arith)
  spare (suc n) (suc x) y h =
      ap (λ r. r * 2 + op (suc x % 2) (y % 2)) (spare n (suc x / 2) (y / 2) (omega arith))

  enough : (d x y : ℕ) → digits rest op (d + x) x y ≡ bitwise rest op x y
  enough zero x y = let e : 0 + x ≡ x = omega arith in ap (λ n. digits rest op n x y) e
  enough (suc d) x y =
      let e : suc d + x ≡ suc (d + x) = omega arith in
      ap (λ n. digits rest op n x y) e ∙ spare (d + x) x y (omega arith) ∙ enough d x y

  -- The lowest digit, and the others by the halves.
  lowest :
      ((y : ℕ) → rest y ≡ rest (y / 2) * 2 + op 0 (y % 2))
      → (x y : ℕ) → bitwise rest op x y ≡ bitwise rest op (x / 2) (y / 2) * 2 + op (x % 2) (y % 2)
  lowest law zero y = law y
  lowest law (suc x) y =
      let count : x ≡ (x - suc x / 2) + suc x / 2 = omega arith in
      ap (λ r. r * 2 + op (suc x % 2) (y % 2))
        (ap (λ n. digits rest op n (suc x / 2) (y / 2)) count
          ∙ enough (x - suc x / 2) (suc x / 2) (y / 2))

low_and : (a b : ℕ) → bit_and a b ≡ bit_and (a / 2) (b / 2) * 2 + min (a % 2) (b % 2)
low_and a b = omega (
  arith,
  bit_and-bitwise a b,
  bit_and-bitwise (a / 2) (b / 2),
  lowest (λ y. 0) min (λ y. omega arith) a b,
)

low_xor : (a b : ℕ) → bit_xor a b ≡ bit_xor (a / 2) (b / 2) * 2 + differ (a % 2) (b % 2)
low_xor a b = omega (
  arith,
  bit_xor-bitwise a b,
  bit_xor-bitwise (a / 2) (b / 2),
  lowest (λ y. y) differ (λ y. omega arith) a b,
)

zero-bit_xor : (b : ℕ) → bit_xor 0 b ≡ b
zero-bit_xor b = bit_xor-bitwise 0 b

and_none : (n a : ℕ) → a ≤ n → bit_and a 0 ≡ 0
and_none n zero h = refl
and_none zero (suc a) h = absurd (omega arith)
and_none (suc n) (suc a) h = omega (arith, low_and (suc a) 0, and_none n (suc a / 2) (omega arith))

-- A mask of ones keeps the lowest digits.
pub bit_and-one : (a : ℕ) → bit_and a 1 ≡ a % 2
bit_and-one a = omega (arith, low_and a 1, and_none a (a / 2) (omega arith))

pub bit_and-63 : (a : ℕ) → bit_and a 63 ≡ a % 64
bit_and-63 a = omega (
  arith,
  low_and a 63,
  low_and (a / 2) 31,
  low_and (a / 2 / 2) 15,
  low_and (a / 2 / 2 / 2) 7,
  low_and (a / 2 / 2 / 2 / 2) 3,
  bit_and-one (a / 2 / 2 / 2 / 2 / 2),
)

differ-le : (x y : ℕ) → x < 2 → y < 2 → differ x y < 2
differ-le zero y h k = k
differ-le (suc zero) zero h k = h
differ-le (suc zero) (suc y) h k = omega (arith, k)
differ-le (suc (suc x)) y h k = absurd (omega (arith, h))

-- Each digit of the exclusive or is the exclusive or of two digits.
pub digit-bit_xor : (k a b : ℕ) → digit k (bit_xor a b) ≡ differ (digit k a) (digit k b)
digit-bit_xor zero a b =
    rw (digit-zero (bit_xor a b), digit-zero a, digit-zero b)
      (omega (arith, low_xor a b, differ-le (a % 2) (b % 2) (omega arith) (omega arith)))
digit-bit_xor (suc k) a b =
    digit-suc k (bit_xor a b)
    ∙ ap (digit k) half
    ∙ digit-bit_xor k (a / 2) (b / 2)
    ∙ sym (
        ap (λ x. differ x (digit (suc k) b)) (digit-suc k a)
        ∙ ap (differ (digit k (a / 2))) (digit-suc k b))
  where
    half : bit_xor a b / 2 ≡ bit_xor (a / 2) (b / 2)
    half = omega (arith, low_xor a b, differ-le (a % 2) (b % 2) (omega arith) (omega arith))

shift_suc : (b p : ℕ) → b * 2 ^ suc p ≡ b * 2 ^ p * 2
shift_suc b p = ap (λ n. b * n) (pow-suc 2 p) ∙ sym (mul_assoc b (2 ^ p) 2)

-- The only digit of a bit that is shifted.
pub digit-shift : (q p b : ℕ) → b < 2 → digit q (b * 2 ^ p) ≡ (if q == p then b else 0)
digit-shift zero zero b h = omega (arith, h)
digit-shift zero (suc p) b h =
    digit-zero (b * 2 ^ suc p) ∙ ap (λ n. n % 2) (shift_suc b p) ∙ grind arith
digit-shift (suc q) zero b h = ground (arith, digit-suc q (b * 2 ^ 0))
digit-shift (suc q) (suc p) b h =
    digit-suc q (b * 2 ^ suc p) ∙ ap (digit q) half ∙ digit-shift q p b h ∙ ground arith
  where
    half : b * 2 ^ suc p / 2 ≡ b * 2 ^ p
    half = omega (arith, shift_suc b p)

-- No digit appears above those of the two numbers.
pub bit_xor-lt : (n a b : ℕ) → a < 2 ^ n → b < 2 ^ n → bit_xor a b < 2 ^ n
bit_xor-lt zero a b h k =
    let none_left : a ≡ 0 = omega (arith, h) in rw none_left (omega (arith, zero-bit_xor b, k))
bit_xor-lt (suc n) a b h k = omega (
  arith,
  pow-suc 2 n,
  low_xor a b,
  differ-le (a % 2) (b % 2) (omega arith) (omega arith),
  bit_xor-lt n (a / 2) (b / 2) (omega (arith, pow-suc 2 n, h)) (omega (arith, pow-suc 2 n, k)),
)
