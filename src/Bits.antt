-- ===== src/Bits.antt =====
-- The class _Bits of include/salticidae/stream.h with its default type, words of 64 bits, once it has
-- memory. The constructor without arguments leaves the numbers of bits and words undefined.
pub mod Access
pub mod RoundTrip
pub mod Loading
use Prim.Native.Nat.{bit_and, bit_or, bit_xor}
use salticidae.Base.{
  ℕ, zero, suc, ◌+◌, ◌*◌, ◌/◌, ◌%◌, ◌^◌, ◌-◌, Option, none, some, List, [], ◌∷◌, length, get_elem?,
  replicate, take, drop, leb, ltb, if◌then◌else◌, Result, ok, ◌>>=◌,
}
use salticidae.Base
use salticidae.Platform.{Platform}
use salticidae.Stream.{DataStream, put_int, get_int}
use salticidae.Blob.{put_words, get_words}

pub record Bits : Type 0 where
  pub words : List ℕ
  pub nbits : ℕ

-- The number of words, `ndata`, computed with 32 bits.
unfoldable pub n_data : ℕ → ℕ
n_data nbits = (nbits + (64 - 1)) % 2 ^ 32 / 64

-- The constructor from a number of bits; the new words hold what the memory held.
pub of_size : List ℕ → ℕ → Bits
unfolding n_data
of_size memory nbits = record { words = take (n_data nbits) memory; nbits = nbits }

-- `*(arr++) << k`, where the byte is promoted to an int of 32 bits: a shift by 32 or more is undefined, and a
-- result with the sign bit is extended when it meets the word.
int_shift : ℕ → ℕ → Option ℕ
int_shift b k =
    let x = b * 2 ^ k % 2 ^ 32 in
    if leb 32 k then none else if ltb x (2 ^ 31) then some x else some (2 ^ 64 - 2 ^ 32 + x)

-- The inner loop of `load`, for `j` bytes from the shift `k` on.
load_word : ℕ → ℕ → List ℕ → ℕ → Option ℕ
unfolding int_shift
load_word zero k bytes x = some x
load_word (suc j) k [] x = load_word j (k + 8) [] x
load_word (suc j) k (b ∷ bytes) x = elim (int_shift b k) [
  | none ↦ none
  | some y ↦ load_word j (k + 8) bytes (bit_or x y)
]

joined : Option ℕ → Option (List ℕ) → Option (List ℕ)
joined none xs = none
joined (some x) none = none
joined (some x) (some xs) = some (x ∷ xs)

-- The outer loop.
load_words : ℕ → List ℕ → Option (List ℕ)
unfolding load_word joined
load_words zero bytes = some []
load_words (suc n) bytes = joined (load_word 8 0 bytes 0) (load_words n (drop 8 bytes))

loaded : ℕ → Option (List ℕ) → Option Bits
loaded nbits none = none
loaded nbits (some xs) = some (record { words = xs; nbits = nbits })

pub load : List ℕ → Option Bits
unfolding load_words n_data loaded
load bytes = let nbits = length bytes * 8 % 2 ^ 32 in loaded nbits (load_words (n_data nbits) bytes)

-- Where a bit is: the word, and the position in it.
abbrev pub index : ℕ → ℕ
index idx = idx / 2 ^ 6

abbrev pub pos : ℕ → ℕ
pos idx = bit_and idx (64 - 1)

-- `(data[i] >> pos) & 1`; a word out of bounds is undefined.
abbrev pub bit_at : ℕ → ℕ → ℕ
bit_at idx w = bit_and (w / 2 ^ pos idx) 1

pub get : ℕ → Bits → Option ℕ
get idx b = elim (get_elem? b.words (index idx)) [ none ↦ none | some w ↦ some (bit_at idx w) ]

-- `data[i] ^= t << pos`, where `t` is made of the old word.
toggled : ℕ → (ℕ → ℕ) → Bits → Option Bits
toggled idx t b = elim (get_elem? b.words (index idx)) [
  | none ↦ none
  | some w ↦
      some
        (record b { words = Base.set b.words (index idx) (bit_xor w (t w * 2 ^ pos idx % 2 ^ 64)) })
]

pub set : ℕ → Bits → Option Bits
unfolding toggled
set idx b = toggled idx (λ w. bit_xor (bit_at idx w) 1) b

pub unset : ℕ → Bits → Option Bits
unfolding toggled
unset idx b = toggled idx (λ w. bit_at idx w) b

pub flip : ℕ → Bits → Option Bits
unfolding toggled
flip idx b = toggled idx (λ w. 1) b

pub clear : Bits → Bits
clear b = record b { words = replicate (length b.words) 0 }

module _ (p : Platform) where
  unfoldable pub serialize : Bits → DataStream → DataStream
  unfolding put_words
  serialize b s = put_words p b.words (put_int p 4 (p.htole 4 b.nbits) s)

  pub unserialize : DataStream → Result (Bits × DataStream)
  unfolding get_words n_data
  unserialize s = do
    (x, s1) ← get_int p 4 s
    (ws, s2) ← get_words p (n_data (p.letoh 4 x)) s1
    ok (record { words = ws; nbits = p.letoh 4 x }, s2)
