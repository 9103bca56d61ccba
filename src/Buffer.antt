-- ===== src/Buffer.antt =====
-- The class SegBuffer of include/salticidae/buffer.h: a list of segments, each with an offset that
-- says how much of it has been popped, and the number of bytes in all. The sums of `_size` are
-- exact, since the bytes counted are in memory; the subtractions wrap as size_t does.
pub mod Contents
use salticidae.Base.{
  ℕ, ◌+◌, ◌-◌, ◌%◌, ◌^◌, min, Bool, true, false, List, [], ◌∷◌, ◌++◌, Option, none, some, length,
  take, drop, ◌==◌, if◌then◌else◌,
}

-- `buffer_entry_t`, its iterator as an index.
pub record Entry : Type 0 where
  pub bytes : List ℕ
  pub offset : ℕ

pub record SegBuffer : Type 0 where
  pub buffer : List Entry
  pub total : ℕ

-- size_t subtraction
abbrev pub sub_size : ℕ → ℕ → ℕ
sub_size a b = (a + 2 ^ 64 - b) % 2 ^ 64

pub entry : List ℕ → Entry
entry bytes = record { bytes = bytes; offset = 0 }

-- `buffer_entry_t::length`
pub entry_length : Entry → ℕ
entry_length e = length e.bytes - e.offset

unfoldable pub empty : SegBuffer
empty = record { buffer = []; total = 0 }

pub rewind : List ℕ → SegBuffer → SegBuffer
unfolding entry
rewind bytes s = record { buffer = entry bytes ∷ s.buffer; total = s.total + length bytes }

unfoldable pub push : List ℕ → SegBuffer → SegBuffer
unfolding entry
push bytes s = record { buffer = s.buffer ++ (entry bytes ∷ []); total = s.total + length bytes }

move_pop_front : List Entry → ℕ → Option (List ℕ × SegBuffer)
move_pop_front [] total = none
move_pop_front (e ∷ rest) total =
    some (e.bytes, record { buffer = rest; total = sub_size total (length e.bytes) })

-- `none` is the undefined `front()` of an empty list.
pub move_pop : SegBuffer → Option (List ℕ × SegBuffer)
unfolding move_pop_front
move_pop s = move_pop_front s.buffer s.total

-- The loop of `pop`, over the entries from `i` on, the bytes still wanted and those copied. An
-- entry that is not used up ends the loop, for it supplied all that was wanted.
pub pop_loop : List Entry → ℕ → List ℕ → List ℕ × List Entry
pop_loop [] len res = (res, [])
pop_loop (e ∷ rest) len res =
    let copy_len = min (length e.bytes - e.offset) len in
    let copied = take copy_len (drop e.offset e.bytes) in
    let next = pop_loop rest (len - copy_len) (res ++ copied) in
    let kept = record e { offset = e.offset + copy_len } ∷ rest in
    if len == 0
    then (res, e ∷ rest)
    else if e.offset + copy_len == length e.bytes
    then next
    else (res ++ copied, kept)

unfoldable pub pop : ℕ → SegBuffer → List ℕ × SegBuffer
unfolding pop_loop
pop len s =
    let (res, rest) = pop_loop s.buffer len [] in
    (res, record { buffer = rest; total = sub_size s.total (length res) })

unfoldable pub size : SegBuffer → ℕ
size s = s.total

-- The number of segments.
unfoldable pub len : SegBuffer → ℕ
len s = length s.buffer

pub is_empty : SegBuffer → Bool
is_empty s = if length s.buffer == 0 then true else false

pub clear : SegBuffer → SegBuffer
clear s = record { buffer = []; total = 0 }
