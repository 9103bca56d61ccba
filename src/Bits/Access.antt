-- ===== src/Bits/Access.antt =====
-- Bits are changed one by one.
use Prim.Native.Nat.{bit_xor, differ}
use native.Mathlib.Nat.{pow-le-pow_right, mod-eq_of_lt}
use native.Mathlib.Decide.{ℕ_discrete}
use salticidae.Base.{
  ℕ, zero, suc, ◌+◌, ◌-◌, ◌*◌, ◌/◌, ◌%◌, ◌^◌, ◌≤◌, ◌<◌, ◌≡◌, refl, sym, ap, ◌∙◌, Option, none, some,
  List, [], ◌∷◌, length, get_elem?, replicate, ◌==◌, ==_iff, ==-false, if◌then◌else◌, arith, digit,
  digit-bit_xor, bit_xor-lt, get_elem?-set_other, ◌≢◌, digit-shift, bit_and-one, bit_and-63,
  get_elem?-set_self, length-set,
}
use salticidae.Base
use salticidae.Bytes.{All}
use salticidae.Bits.{Bits, index, pos, bit_at, get, toggled, set, unset, flip, n_data}

abbrev pub IsWord : ℕ → Type 0
IsWord w = w < 256 ^ 8

-- The words have room for the bits, and their number was computed without a wrap.
pub record IsValid (b : Bits) : Type 0 where
  pub no_wrap : b.nbits + 63 < 2 ^ 32
  pub counted : length b.words ≡ n_data b.nbits
  pub fit : All IsWord b.words

-- The bit `idx` is changed by `f`, and no other; the size stays.
pub record Changes (idx : ℕ) (f : ℕ → ℕ) (b c : Bits) : Type 0 where
  pub valid : IsValid c
  pub same_size : c.nbits ≡ b.nbits
  pub changed : (old : ℕ) × (old < 2) × (get idx b ≡ some old) × (get idx c ≡ some (f old))
  pub others : (k : ℕ) → k ≢ idx → get k c ≡ get k b

get_elem?-lt : (xs : List ℕ) (i : ℕ) → i < length xs → (x : ℕ) × (get_elem? xs i ≡ some x)
get_elem?-lt [] i h = absurd (omega (arith, h))
get_elem?-lt (x ∷ xs) zero h = (x, refl)
get_elem?-lt (x ∷ xs) (suc i) h = get_elem?-lt xs i (omega (arith, h))

bit_at-digit : (idx w : ℕ) → bit_at idx w ≡ digit (idx % 64) w
bit_at-digit idx w = bit_and-one _ ∙ ap (λ k. digit k w) (bit_and-63 idx)

differ-zero : (x : ℕ) → differ x 0 ≡ x
differ-zero zero = refl
differ-zero (suc x) = refl

-- One word, with the bit `t` at the position of `idx` toggled.
module _ (idx t : ℕ) (small : t < 2) where
  abbrev mask : ℕ
  mask = t * 2 ^ pos idx % 2 ^ 64

  mask_lem : (mask ≡ t * 2 ^ (idx % 64)) × (mask < 2 ^ 64)
  mask_lem =
      let low : 2 ^ (idx % 64) ≤ 2 ^ 63 = pow-le-pow_right (omega arith) {j = 63} (omega arith) in
      let fits : t * 2 ^ (idx % 64) < 2 ^ 64 = grind (arith, low, small) in
      let whole : mask ≡ t * 2 ^ (idx % 64) =
        ap (λ k. t * 2 ^ k % 2 ^ 64) (bit_and-63 idx) ∙ mod-eq_of_lt fits in
      (whole, omega (arith, whole, fits))

  bit_at_toggled :
      (k w : ℕ)
      → bit_at k (bit_xor w mask) ≡ differ (bit_at k w) (if k % 64 == idx % 64 then t else 0)
  bit_at_toggled k w =
      bit_at-digit k (bit_xor w mask)
      ∙ digit-bit_xor (k % 64) w mask
      ∙ ap (λ m. differ (digit (k % 64) w) (digit (k % 64) m)) mask_lem.0
      ∙ ap (differ (digit (k % 64) w)) (digit-shift (k % 64) (idx % 64) t small)
      ∙ ap (λ x. differ x (if k % 64 == idx % 64 then t else 0)) (sym (bit_at-digit k w))

  same_bit : (w : ℕ) → bit_at idx (bit_xor w mask) ≡ differ (bit_at idx w) t
  same_bit w =
      bit_at_toggled idx w
      ∙ ap (differ (bit_at idx w)) (rw ((==_iff (idx % 64) (idx % 64)).1 refl) refl)

  other_bit : (k w : ℕ) → k ≢ idx → index idx ≡ index k → bit_at k (bit_xor w mask) ≡ bit_at k w
  other_bit k w other same =
      let apart : ¬ (k % 64 ≡ idx % 64) = λ e. other (omega (arith, e, same)) in
      bit_at_toggled k w
      ∙ ap (differ (bit_at k w)) (rw (==-false (k % 64) (idx % 64) apart) refl)
      ∙ differ-zero (bit_at k w)

get-at :
    (k : ℕ) (b : Bits) (w : ℕ) → get_elem? b.words (index k) ≡ some w → get k b ≡ some (bit_at k w)
unfolding get
get-at k b w e = rw (e, get) refl

set-All : (xs : List ℕ) (i v : ℕ) → All IsWord xs → IsWord v → All IsWord (Base.set xs i v)
set-All [] i v h k = tt
set-All (x ∷ xs) zero v h k = (k, h.1)
set-All (x ∷ xs) (suc i) v h k = (h.0, set-All xs i v h.1 k)

get_elem?-All : (xs : List ℕ) (i w : ℕ) → All IsWord xs → get_elem? xs i ≡ some w → IsWord w
get_elem?-All [] i w h e = cc
get_elem?-All (x ∷ xs) zero w h e = ground arith
get_elem?-All (x ∷ xs) (suc i) w h e = get_elem?-All xs i w h.1 e

-- The bit `t` is toggled in the word `w` that holds `idx`.
module _ (idx t : ℕ) (small : t < 2) (b : Bits) (w : ℕ) (v : IsValid b)
    (room : index idx < length b.words) (at : get_elem? b.words (index idx) ≡ some w) where
  abbrev new_word : ℕ
  new_word = bit_xor w (mask idx t small)

  abbrev after : Bits
  after = record b { words = Base.set b.words (index idx) new_word }

  there : get_elem? after.words (index idx) ≡ some new_word
  there = get_elem?-set_self b.words (index idx) new_word room

  after-IsValid : IsValid after
  after-IsValid = record {
    no_wrap = v.no_wrap;
    counted = length-set b.words (index idx) new_word ∙ v.counted;
    fit = set-All b.words (index idx) new_word v.fit (
        bit_xor-lt 64 w (mask idx t small) (get_elem?-All b.words (index idx) w v.fit at)
          (mask_lem idx t small).1);
  }

  other_bits : (k : ℕ) → k ≢ idx → get k after ≡ get k b
  unfolding get
  other_bits k other = elim (ℕ_discrete (index idx) (index k)) [
    | no n ↦ rw (get_elem?-set_other b.words (index idx) (index k) new_word n, get) refl
    | yes y ↦
        get-at k after new_word (ap (get_elem? after.words) (sym y) ∙ there)
        ∙ ap some (other_bit idx t small k w other y)
        ∙ sym (get-at k b w (ap (get_elem? b.words) (sym y) ∙ at))
  ]

  after-Changes : (f : ℕ → ℕ) → differ (bit_at idx w) t ≡ f (bit_at idx w) → Changes idx f b after
  after-Changes f law = record {
    valid = after-IsValid;
    same_size = refl;
    changed = (
      bit_at idx w,
      omega (arith, bit_at-digit idx w),
      get-at idx b w at,
      get-at idx after new_word there ∙ ap some (same_bit idx t small w ∙ law),
    );
    others = other_bits;
  }

toggled_lem :
    (idx : ℕ) (f t : ℕ → ℕ) (b : Bits)
    → IsValid b
    → idx < b.nbits
    → ((w : ℕ) → t w < 2)
    → ((w : ℕ) → differ (bit_at idx w) (t w) ≡ f (bit_at idx w))
    → (c : Bits) × (toggled idx t b ≡ some c) × Changes idx f b c
unfolding n_data toggled
toggled_lem idx f t b v h small law =
    let room : index idx < length b.words = omega (arith, v.counted, v.no_wrap) in
    let (w, at) = get_elem?-lt b.words (index idx) room in
    (
      after idx (t w) (small w) b w v room at,
      rw (at, toggled) refl,
      after-Changes idx (t w) (small w) b w v room at f (law w),
    )

-- The laws of the three patterns that are toggled.
differ-complement : (x : ℕ) → x < 2 → differ x (bit_xor x 1) ≡ 1
differ-complement zero h = refl
differ-complement (suc zero) h = refl
differ-complement (suc (suc x)) h = absurd (omega (arith, h))

differ_self : (x : ℕ) → x < 2 → differ x x ≡ 0
differ_self zero h = refl
differ_self (suc zero) h = refl
differ_self (suc (suc x)) h = absurd (omega (arith, h))

differ-one : (x : ℕ) → x < 2 → differ x 1 ≡ 1 - x
differ-one zero h = refl
differ-one (suc zero) h = refl
differ-one (suc (suc x)) h = absurd (omega (arith, h))

complement-lt : (x : ℕ) → x < 2 → bit_xor x 1 < 2
complement-lt zero h = omega arith
complement-lt (suc zero) h = omega arith
complement-lt (suc (suc x)) h = absurd (omega (arith, h))

bit_at-lt : (idx w : ℕ) → bit_at idx w < 2
bit_at-lt idx w = omega (arith, bit_at-digit idx w)

-- A bit within the size of valid bits is set to 1, set to 0 or inverted. Then it has that value, every other bit the one it
-- had, the size is the same, and the words are valid.
pub access_lem :
    (idx : ℕ) (b : Bits)
    → IsValid b
    → idx < b.nbits
    → ((c : Bits) × (set idx b ≡ some c) × Changes idx (λ x. 1) b c)
      × ((c : Bits) × (unset idx b ≡ some c) × Changes idx (λ x. 0) b c)
      × ((c : Bits) × (flip idx b ≡ some c) × Changes idx (λ x. 1 - x) b c)
unfolding set unset flip
access_lem idx b v h = (
  toggled_lem idx _ _ b v h (λ w. complement-lt (bit_at idx w) (bit_at-lt idx w))
      (λ w. differ-complement (bit_at idx w) (bit_at-lt idx w)),
  toggled_lem idx _ _ b v h (bit_at-lt idx) (λ w. differ_self (bit_at idx w) (bit_at-lt idx w)),
  toggled_lem idx _ _ b v h (λ w. omega arith) (λ w. differ-one (bit_at idx w) (bit_at-lt idx w)),
)
