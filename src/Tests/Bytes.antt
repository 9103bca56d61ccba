-- ===== src/Tests/Bytes.antt =====
-- Streams and buffers.
use salticidae.Base.{◌≡◌, refl, [], ◌∷◌, ◌++◌, some, arith}
use salticidae.Buffer.{SegBuffer, pop, move_pop}
use salticidae.Buffer.Contents
use salticidae.Buffer.Contents.{bytes_of, contents, entry_bytes}

-- Two segments, of which the first has lost a byte.
abbrev used : SegBuffer
used = record {
  buffer =
      record { bytes = 1 ∷ 2 ∷ 3 ∷ []; offset = 1 } ∷ record { bytes = 4 ∷ []; offset = 0 } ∷ [];
  total = 3;
}

used-IsValid : Contents.IsValid used
used-IsValid = record { in_bounds = omega arith; counted = refl; small = omega arith }

abbrev whole : SegBuffer
whole = record { buffer = record { bytes = 4 ∷ []; offset = 0 } ∷ []; total = 1 }

whole-IsValid : Contents.IsValid whole
whole-IsValid = record { in_bounds = omega arith; counted = refl; small = omega arith }

pop_example :
    ((pop 3 used).0 ≡ 2 ∷ 3 ∷ 4 ∷ [])
    × Contents.IsValid (pop 3 used).1
    × (contents (pop 3 used).1 ≡ [])
pop_example = Contents.pop_lem 3 used used-IsValid

move_pop_example :
    (t : SegBuffer) × (move_pop whole ≡ some (4 ∷ [], t))
    × Contents.IsValid t
    × (bytes_of whole.buffer ≡ (4 ∷ []) ++ contents t)
move_pop_example =
    Contents.move_pop_lem (record { bytes = 4 ∷ []; offset = 0 }) [] 1 whole-IsValid refl

move_pop_replays_example :
    (t : SegBuffer) × (move_pop used ≡ some (1 ∷ 2 ∷ 3 ∷ [], t))
    × (bytes_of used.buffer ≡ (2 ∷ 3 ∷ []) ++ contents t)
    × ¬ Contents.IsValid t
move_pop_replays_example =
    Contents.move_pop_replays (record { bytes = 1 ∷ 2 ∷ 3 ∷ []; offset = 1 })
      (record { bytes = 4 ∷ []; offset = 0 } ∷ []) 3 used-IsValid (omega arith) (omega arith)
