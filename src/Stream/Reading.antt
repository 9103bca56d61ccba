-- ===== src/Stream/Reading.antt =====
-- A stream as the bytes that are still to be read: writing appends to them, reading takes a prefix.
use native.Mathlib.Nat.{mod-eq_of_lt}
use native.Mathlib.Decide.{dec_lt}
use salticidae.Base.{
  ℕ, ◌+◌, ◌^◌, ◌≤◌, ◌<◌, ◌≡◌, sym, ap, ◌∙◌, List, ◌++◌, length, take, drop, ok, err,
  insufficient_buffer, arith, length-append, length-drop, drop-append_le, drop-drop,
  take-append_self, drop-append_self, ◌⊎◌, inl, inr, ◌%◌,
}
use salticidae.Platform.{Platform}
use salticidae.Stream.{DataStream, size, put_data, get_data_inplace, put_int, get_int}

abbrev pub IsValid : DataStream → Type 0
IsValid s = s.offset ≤ length s.buffer

abbrev pub unread : DataStream → List ℕ
unread s = drop s.offset s.buffer

pub size_lem : (s : DataStream) → size s ≡ length (unread s)
unfolding size
size_lem s = sym (length-drop s.offset s.buffer)

-- Bytes that are put come after the bytes still to be read.
pub unread-put_data :
    (s : DataStream) (bytes : List ℕ)
    → IsValid s
    → IsValid (put_data s bytes) × (unread (put_data s bytes) ≡ unread s ++ bytes)
unfolding put_data
unread-put_data s bytes v =
    (omega (arith, length-append s.buffer bytes), drop-append_le s.offset s.buffer bytes v)

-- Reading in place returns the next `len` bytes and steps past them, or throws and tells that
-- fewer than `len` are left.
pub get_data_inplace_lem :
    (s : DataStream) (len : ℕ)
    → IsValid s
    → s.offset + len < 2 ^ 64
    → ((length (unread s) < len) × (get_data_inplace s len ≡ err insufficient_buffer))
      ⊎ ((t : DataStream) × (get_data_inplace s len ≡ ok (take len (unread s), t))
          × (len ≤ length (unread s))
          × IsValid t
          × (unread t ≡ drop len (unread s)))
unfolding get_data_inplace
get_data_inplace_lem s len v h = elim (dec_lt (length s.buffer) (s.offset + len)) [
  | yes short ↦ inl (omega (arith, length-drop s.offset s.buffer), ground (arith, exact))
  | no fits ↦ inr (
    record s { offset = s.offset + len },
    ground (arith, exact),
    omega (arith, length-drop s.offset s.buffer),
    omega arith,
    sym (drop-drop len s.offset s.buffer),
  )
]
  where
    exact : (s.offset + len) % 2 ^ 64 ≡ s.offset + len
    exact = mod-eq_of_lt h

module _ (p : Platform) where
  pub unread-put_int :
      (w d : ℕ) (s : DataStream)
      → IsValid s
      → IsValid (put_int p w d s) × (unread (put_int p w d s) ≡ unread s ++ p.store w d)
  unfolding put_int
  unread-put_int w d s v =
      (omega (arith, length-append s.buffer (p.store w d)), drop-append_le s.offset s.buffer _ v)

  pub get_int_short :
      (w : ℕ) (s : DataStream)
      → IsValid s
      → length (unread s) < w
      → get_int p w s ≡ err insufficient_buffer
  unfolding get_int
  get_int_short w s v h = ground (arith, length-drop s.offset s.buffer)

  -- The next `w` bytes are read as an integer when they are there.
  pub get_int-append :
      (w : ℕ) (s : DataStream) (front rest : List ℕ)
      → IsValid s
      → unread s ≡ front ++ rest
      → length front ≡ w
      → (t : DataStream) × (get_int p w s ≡ ok (p.load front, t)) × IsValid t × (unread t ≡ rest)
  unfolding get_int
  get_int-append w s front rest v e n =
      let room : s.offset + w ≤ length s.buffer =
        omega (arith, v, n, ap length e, length-append front rest, length-drop s.offset s.buffer) in
      let now : take w (drop s.offset s.buffer) ≡ front =
        ap (take w) e ∙ take-append_self w front rest n in
      let later : drop (s.offset + w) s.buffer ≡ rest =
        sym (drop-drop w s.offset s.buffer) ∙ ap (drop w) e ∙ drop-append_self w front rest n in
      (record s { offset = s.offset + w }, ground (arith, now), room, later)
