-- ===== src/Tests/Bits.antt =====
-- Bits in two words.
use salticidae.Base.{◌-◌, ◌^◌, ◌≤◌, ◌≡◌, ◌⊎◌, refl, none, some, ok, [], ◌∷◌, arith}
use salticidae.Bytes.{le_bytes}
use salticidae.Stream.{DataStream, move_bytes, put_data, put_int}
use salticidae.Stream.Reading.{unread}
use salticidae.Stream.Reading
use salticidae.Blob.{put_words}
use salticidae.Bits.{Bits, n_data, set, unset, flip, load, serialize, unserialize}
use salticidae.Bits.Access.{IsValid, Changes, access_lem}
use salticidae.Bits.Loading.{load_lem}
use salticidae.Bits.RoundTrip.{unserialize-serialize}
use salticidae.Tests.Platforms.{little}

abbrev seventy : Bits
seventy = record { words = 5 ∷ 32 ∷ []; nbits = 70 }

seventy-IsValid : IsValid seventy
unfolding n_data
seventy-IsValid = record {
  no_wrap = omega arith;
  counted = refl;
  fit = (omega arith, (omega arith, tt));
}

access_example :
    ((c : Bits) × (set 66 seventy ≡ some c) × Changes 66 (λ x. 1) seventy c)
    × ((c : Bits) × (unset 66 seventy ≡ some c) × Changes 66 (λ x. 0) seventy c)
    × ((c : Bits) × (flip 66 seventy ≡ some c) × Changes 66 (λ x. 1 - x) seventy c)
access_example = access_lem 66 seventy seventy-IsValid (omega arith)

abbrev nothing : DataStream
nothing = record { buffer = []; offset = 0 }

abbrev written : DataStream
written = record {
  buffer = 70 ∷ 0 ∷ 0 ∷ 0 ∷ 5 ∷ 0 ∷ 0 ∷ 0 ∷ 0 ∷ 0 ∷ 0 ∷ 0 ∷ 32 ∷ 0 ∷ 0 ∷ 0 ∷ 0 ∷ 0 ∷ 0 ∷ 0 ∷ 9 ∷ [];
  offset = 0;
}

unserialize-serialize_example :
    (t : DataStream) × (unserialize little written ≡ ok (seventy, t))
    × Reading.IsValid t
    × (unread t ≡ 9 ∷ [])
unfolding serialize put_words put_int put_data move_bytes le_bytes
unserialize-serialize_example =
    unserialize-serialize little seventy nothing written (9 ∷ []) seventy-IsValid (omega arith)
      (omega arith) refl refl

load_example :
    ((5 ≤ 6) × (load (1 ∷ 2 ∷ 3 ∷ 4 ∷ 5 ∷ 6 ∷ []) ≡ none))
    ⊎ ((6 ≤ 4) × ((b : Bits) × (load (1 ∷ 2 ∷ 3 ∷ 4 ∷ 5 ∷ 6 ∷ []) ≡ some b) × (b.nbits ≡ 48)))
load_example = load_lem (1 ∷ 2 ∷ 3 ∷ 4 ∷ 5 ∷ 6 ∷ []) (omega arith)

-- A number of bits whose number of words wraps.
wrapped : n_data (2 ^ 32 - 1) ≡ 0
unfolding n_data
wrapped = refl
