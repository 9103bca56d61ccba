-- ===== src/Stream.antt =====
-- The class DataStream of include/salticidae/stream.h: a byte array written at its end and read
-- from an offset. Sizes are far below 2 ^ 64 for any array that fits in memory, so the sums of an
-- offset and a constant width are exact; `get_data_inplace`, which adds a caller's length, wraps.
pub mod Reading
use salticidae.Base.{
  ℕ, ◌+◌, ◌-◌, ◌%◌, ◌^◌, Bool, List, [], ◌++◌, length, take, drop, ltb, if◌then◌else◌, Result, ok,
  err, insufficient_buffer,
}
use salticidae.Platform.{Platform}

pub record DataStream : Type 0 where
  pub buffer : List ℕ
  pub offset : ℕ

unfoldable pub empty : DataStream
empty = record { buffer = []; offset = 0 }

unfoldable pub of_bytes : List ℕ → DataStream
of_bytes bytes = record { buffer = bytes; offset = 0 }

pub clear : DataStream → DataStream
clear s = record s { buffer = []; offset = 0 }

pub size : DataStream → ℕ
size s = length s.buffer - s.offset

-- `put_data` over a range, a pair of pointers, and the operators `<<` of strings and byte arrays.
unfoldable pub put_data : DataStream → List ℕ → DataStream
put_data s bytes = record s { buffer = s.buffer ++ bytes }

-- The pointer that is returned stands for the `len` bytes that the caller reads through it.
pub get_data_inplace : DataStream → ℕ → Result (List ℕ × DataStream)
get_data_inplace s len =
    let bytes = take len (drop s.offset s.buffer) in
    let offset = (s.offset + len) % 2 ^ 64 in
    if ltb (length s.buffer) offset
    then err insufficient_buffer
    else ok (bytes, record s { offset = offset })

-- `operator bytearray_t () const &` copies the bytes not yet read; the overload for an rvalue
-- hands over the whole buffer.
pub to_bytes : DataStream → List ℕ
to_bytes s = drop s.offset s.buffer

unfoldable pub move_bytes : DataStream → List ℕ
move_bytes s = s.buffer

module _ (p : Platform) where
  -- `operator<<` of an integral type of `w` bytes.
  unfoldable pub put_int : ℕ → ℕ → DataStream → DataStream
  put_int w d s = record s { buffer = s.buffer ++ p.store w d }

  -- `operator>>` of an integral type of `w` bytes.
  unfoldable pub get_int : ℕ → DataStream → Result (ℕ × DataStream)
  get_int w s =
      if ltb (length s.buffer) (s.offset + w)
      then err insufficient_buffer
      else ok (p.load (take w (drop s.offset s.buffer)), record s { offset = s.offset + w })
