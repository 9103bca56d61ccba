-- ===== src/Platform.antt =====
-- What the code takes from its platform: the byte order of the host, which the assignments
-- through a reinterpreted pointer of include/salticidae/stream.h expose; the conversions of
-- <endian.h> behind htole and letoh of include/salticidae/type.h; and the SHA-1 of OpenSSL behind
-- the class SHA1 of include/salticidae/crypto.h. The laws state their documented behaviour.
use salticidae.Base.{ℕ, ◌^◌, ◌<◌, ◌≡◌, List, length}
use salticidae.Bytes.{IsByte, All, le_bytes}

pub record Platform : Type 0 where
  -- The bytes in memory of an unsigned integer of `w` bytes, and the integer that they hold.
  pub store : ℕ → ℕ → List ℕ
  pub load : List ℕ → ℕ
  -- htole16, htole32, htole64 and le16toh, le32toh, le64toh, by the width in bytes.
  pub htole : ℕ → ℕ → ℕ
  pub letoh : ℕ → ℕ → ℕ
  -- SHA1 of a byte array.
  pub sha1 : List ℕ → List ℕ
  pub length-store : (w x : ℕ) → length (store w x) ≡ w
  pub load-store : (w x : ℕ) → x < 256 ^ w → load (store w x) ≡ x
  pub load-lt : (bs : List ℕ) → All IsByte bs → load bs < 256 ^ length bs
  -- Storing a converted integer writes its little-endian bytes, whatever the host's order.
  pub store-htole : (w x : ℕ) → x < 256 ^ w → store w (htole w x) ≡ le_bytes w x
  pub letoh-load : (w x : ℕ) → x < 256 ^ w → letoh w (load (le_bytes w x)) ≡ x
  -- One byte has no order.
  pub store_one : (x : ℕ) → x < 256 → store 1 x ≡ le_bytes 1 x
  -- A digest is 20 bytes.
  pub length-sha1 : (bs : List ℕ) → length (sha1 bs) ≡ 20
  pub sha1-IsByte : (bs : List ℕ) → All IsByte (sha1 bs)
