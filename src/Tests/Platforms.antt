-- ===== src/Tests/Platforms.antt =====
-- A little-endian platform. Its digest is a sum, since the model needs of SHA-1 only its size.
use salticidae.Base.{ℕ, ◌+◌, ◌%◌, refl, List, [], ◌∷◌, replicate, arith}
use salticidae.Bytes.{IsByte, All, le_bytes, from_le, length-le_bytes, from_le-le_bytes, from_le-lt}
use salticidae.Platform.{Platform}

abbrev pub sum : List ℕ → ℕ
sum [] = 0
sum (b ∷ bs) = b + sum bs

abbrev pub digest : List ℕ → List ℕ
digest bs = (sum bs % 256) ∷ replicate 19 0

pub digest-IsByte : (bs : List ℕ) → All IsByte (digest bs)
digest-IsByte bs = omega arith

-- For example an x86-64 machine.
abbrev pub little : Platform
little = record {
  store = le_bytes;
  load = from_le;
  htole = λ w x. x;
  letoh = λ w x. x;
  sha1 = digest;
  length-store = length-le_bytes;
  load-store = from_le-le_bytes;
  load-lt = from_le-lt;
  store-htole = λ w x h. refl;
  letoh-load = from_le-le_bytes;
  store_one = λ x h. refl;
  length-sha1 = λ bs. refl;
  sha1-IsByte = digest-IsByte;
}
