-- ===== src/Blob.antt =====
-- The class Blob of include/salticidae/stream.h, as words of 64 bits. The number of words is that of the
-- type, N / 64.
pub mod RoundTrip
pub mod Order
use mathlib.Core.List.{reverse}
use salticidae.Base.{
  ℕ, zero, suc, ◌+◌, ◌*◌, ◌%◌, ◌^◌, Bool, true, false, ◌&&◌, List, [], ◌∷◌, length, replicate, drop,
  ◌==◌, ltb, if◌then◌else◌, Result, ok, err, ◌>>=◌, invalid_argument,
}
use salticidae.Platform.{Platform}
use salticidae.Stream.{DataStream, put_int, get_int}

pub record Blob : Type 0 where
  pub words : List ℕ
  pub loaded : Bool

-- The constructor without arguments.
pub null_blob : ℕ → Blob
null_blob n = record { words = replicate n 0; loaded = false }

pub is_null : Blob → Bool
is_null b = if b.loaded then false else true

-- The inner loop of `load`, for the `j` bytes that end at the pointer, the last of which comes first.
-- A byte fills bits that the shift has cleared.
load_word : ℕ → List ℕ → ℕ → ℕ
load_word zero bytes x = x
load_word (suc j) [] x = x
load_word (suc j) (b ∷ bytes) x = load_word j bytes ((x * 256) % 2 ^ 64 + b)

-- The outer loop, from the last word on.
load_words : ℕ → List ℕ → List ℕ → List ℕ
unfolding load_word
load_words zero bytes words = words
load_words (suc n) bytes words = load_words n (drop 8 bytes) (load_word 8 bytes 0 ∷ words)

pub load : ℕ → List ℕ → Blob
unfolding load_words
load n bytes = record { words = load_words n (reverse bytes) []; loaded = true }

-- The constructor from a byte array.
pub of_bytes : ℕ → List ℕ → Result Blob
unfolding load
of_bytes n bytes = if length bytes == 8 * n then ok (load n bytes) else err invalid_argument

is_eq_words : List ℕ → List ℕ → Bool
is_eq_words [] ys = true
is_eq_words (x ∷ xs) [] = true
is_eq_words (x ∷ xs) (y ∷ ys) = (x == y) && is_eq_words xs ys

-- `operator==`
pub is_eq : Blob → Blob → Bool
unfolding is_eq_words
is_eq a b = is_eq_words a.words b.words

-- The words from the last on.
less_words : List ℕ → List ℕ → Bool
less_words [] ys = false
less_words (x ∷ xs) [] = false
less_words (x ∷ xs) (y ∷ ys) = let rest = less_words xs ys in if x == y then rest else ltb x y

-- `operator<`
pub is_less : Blob → Blob → Bool
unfolding less_words
is_less a b = less_words (reverse a.words) (reverse b.words)

module _ (p : Platform) where
  unfoldable pub put_words : List ℕ → DataStream → DataStream
  put_words [] s = s
  put_words (w ∷ ws) s = put_words ws (put_int p 8 (p.htole 8 w) s)

  put_zeros : List ℕ → DataStream → DataStream
  put_zeros [] s = s
  put_zeros (w ∷ ws) s = put_zeros ws (put_int p 8 (p.htole 8 0) s)

  pub serialize : Blob → DataStream → DataStream
  unfolding put_words put_zeros
  serialize b s = if b.loaded then put_words b.words s else put_zeros b.words s

  unfoldable pub get_words : ℕ → DataStream → Result (List ℕ × DataStream)
  get_words zero s = ok ([], s)
  get_words (suc n) s = do
    (x, s1) ← get_int p 8 s
    (ws, s2) ← get_words n s1
    ok (p.letoh 8 x ∷ ws, s2)

  pub unserialize : ℕ → DataStream → Result (Blob × DataStream)
  unfolding get_words
  unserialize n s = do (ws, s1) ← get_words n s; ok (record { words = ws; loaded = true }, s1)
