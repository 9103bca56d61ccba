-- ===== src/Tests/Blobs.antt =====
-- Blobs of one and of two words.
use salticidae.Base.{
  ℕ, ◌*◌, ◌≡◌, ◌⊎◌, refl, true, List, [], ◌∷◌, ◌++◌, ltb, ok, err, invalid_argument, arith,
}
use salticidae.Stream.{DataStream}
use salticidae.Stream.Reading.{unread}
use salticidae.Blob.{Blob, of_bytes, serialize, unserialize, is_less}
use salticidae.Blob.RoundTrip.{of_bytes_lem}
use salticidae.Blob.Order.{number, is_less_lem}
use salticidae.Tests.Platforms.{little}

abbrev eight : List ℕ
eight = 1 ∷ 2 ∷ 3 ∷ 4 ∷ 5 ∷ 6 ∷ 7 ∷ 255 ∷ []

abbrev written_to : DataStream
written_to = record { buffer = 9 ∷ []; offset = 0 }

abbrev read_from : DataStream
read_from = record { buffer = 1 ∷ 2 ∷ 3 ∷ 4 ∷ 5 ∷ 6 ∷ 7 ∷ 255 ∷ 8 ∷ []; offset = 0 }

of_bytes_example :
    (¬ (8 ≡ 8 * 1) × (of_bytes 1 eight ≡ err invalid_argument))
    ⊎ ((b : Blob) × (of_bytes 1 eight ≡ ok b)
        × (unread (serialize little b written_to) ≡ (9 ∷ []) ++ eight)
        × ((t : DataStream) × (unserialize little 1 read_from ≡ ok (b, t)) × (unread t ≡ 8 ∷ [])))
of_bytes_example =
    of_bytes_lem little 1 eight (8 ∷ []) written_to read_from (omega arith) (omega arith)
      (omega arith) refl

abbrev lower : Blob
lower = record { words = 9 ∷ 0 ∷ []; loaded = true }

abbrev higher : Blob
higher = record { words = 5 ∷ 1 ∷ []; loaded = true }

is_less_example : is_less lower higher ≡ ltb (number (0 ∷ 9 ∷ [])) (number (1 ∷ 5 ∷ []))
is_less_example =
    is_less_lem lower higher refl (omega arith, (omega arith, tt)) (omega arith, (omega arith, tt))
