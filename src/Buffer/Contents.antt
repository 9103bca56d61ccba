-- ===== src/Buffer/Contents.antt =====
-- A segmented buffer as the byte string that it holds: `push` appends, `rewind` prepends, and `pop`
-- takes a prefix, whatever the segments are.
use native.Mathlib.Decide.{dec_lt}
use salticidae.Base.{
  ℕ, zero, suc, ◌+◌, ◌-◌, ◌^◌, ◌≤◌, ◌<◌, min, ◌≡◌, refl, sym, ap, ◌∙◌, List, [], ◌∷◌, ◌++◌, some,
  length, take, drop, arith, length-append, length-drop, length-take, take-append_le,
  drop-append_le, take-append_ge, drop-append_ge, take_all, drop-drop, take-append-drop,
  append_assoc, append-nil, drop_all,
}
use salticidae.Buffer.{
  len, Entry, SegBuffer, sub_size, entry, rewind, push, move_pop, pop_loop, pop, size, empty,
}

abbrev pub entry_bytes : Entry → List ℕ
entry_bytes e = drop e.offset e.bytes

abbrev pub bytes_of : List Entry → List ℕ
bytes_of [] = []
bytes_of (e ∷ es) = entry_bytes e ++ bytes_of es

-- The bytes still in the buffer.
abbrev pub contents : SegBuffer → List ℕ
contents s = bytes_of s.buffer

abbrev pub InBounds : List Entry → Type 0
InBounds [] = Unit {0}
InBounds (e ∷ es) = (e.offset ≤ length e.bytes) × InBounds es

pub record IsValid (s : SegBuffer) : Type 0 where
  pub in_bounds : InBounds s.buffer
  pub counted : s.total ≡ length (contents s)
  pub small : s.total < 2 ^ 64

bytes_of-append : (es fs : List Entry) → bytes_of (es ++ fs) ≡ bytes_of es ++ bytes_of fs
bytes_of-append [] fs = refl
bytes_of-append (e ∷ es) fs =
    ap (◌++◌ (entry_bytes e)) (bytes_of-append es fs)
    ∙ sym (append_assoc (entry_bytes e) (bytes_of es) (bytes_of fs))

InBounds-append : (es fs : List Entry) → InBounds es → InBounds fs → InBounds (es ++ fs)
InBounds-append [] fs h k = k
InBounds-append (e ∷ es) fs h k = (h.0, InBounds-append es fs h.1 k)

pub contents-push : (bytes : List ℕ) (s : SegBuffer) → contents (push bytes s) ≡ contents s ++ bytes
unfolding push entry
contents-push bytes s =
    bytes_of-append s.buffer (entry bytes ∷ []) ∙ ap (◌++◌ (contents s)) (append-nil bytes)

pub len-push : (bytes : List ℕ) (s : SegBuffer) → len (push bytes s) ≡ len s + 1
unfolding push len
len-push bytes s = length-append s.buffer (entry bytes ∷ [])

-- `push` appends the bytes, and keeps the count, if the bytes in all can be counted.
pub push_lem :
    (bytes : List ℕ) (s : SegBuffer)
    → IsValid s
    → s.total + length bytes < 2 ^ 64
    → IsValid (push bytes s) × (contents (push bytes s) ≡ contents s ++ bytes)
unfolding push entry
push_lem bytes s v h = (
  record {
    in_bounds = InBounds-append s.buffer _ v.in_bounds (omega arith, tt);
    counted =
        omega
          (arith, v.counted, ap length (contents-push bytes s), length-append (contents s) bytes);
    small = h;
  },
  contents-push bytes s,
)

-- `rewind` puts the bytes back in front.
pub rewind_lem :
    (bytes : List ℕ) (s : SegBuffer)
    → IsValid s
    → s.total + length bytes < 2 ^ 64
    → IsValid (rewind bytes s) × (contents (rewind bytes s) ≡ bytes ++ contents s)
unfolding rewind entry
rewind_lem bytes s v h = (
  record {
    in_bounds = (omega arith, v.in_bounds);
    counted = omega (arith, v.counted, length-append bytes (contents s));
    small = h;
  },
  refl,
)

-- An entry that holds no more than what is wanted is used up, and the loop goes on behind it.
pop_loop_used :
    (e : Entry) (es : List Entry) (len : ℕ) (res : List ℕ)
    → e.offset ≤ length e.bytes
    → 0 < len
    → length (entry_bytes e) ≤ len
    → pop_loop (e ∷ es) len res ≡ pop_loop es (len - length (entry_bytes e)) (res ++ entry_bytes e)
unfolding pop_loop
pop_loop_used e es len res h pos k =
    let n : length (entry_bytes e) ≡ length e.bytes - e.offset = length-drop e.offset e.bytes in
    let m : min (length e.bytes - e.offset) len ≡ length (entry_bytes e) = omega arith in
    let all : take (length (entry_bytes e)) (entry_bytes e) ≡ entry_bytes e =
      take_all _ (entry_bytes e) (omega arith) in
    rw m (rw all (ground arith))

-- A longer one supplies all that is wanted and keeps the rest.
pop_loop_kept :
    (e : Entry) (es : List Entry) (len : ℕ) (res : List ℕ)
    → e.offset ≤ length e.bytes
    → 0 < len
    → len < length (entry_bytes e)
    → pop_loop (e ∷ es) len res
      ≡ (res ++ take len (entry_bytes e), record e { offset = e.offset + len } ∷ es)
unfolding pop_loop
pop_loop_kept e es len res h pos k =
    let n : length (entry_bytes e) ≡ length e.bytes - e.offset = length-drop e.offset e.bytes in
    let m : min (length e.bytes - e.offset) len ≡ len = omega arith in rw m (ground arith)

abbrev Popped : List Entry → ℕ → List ℕ → List ℕ × List Entry → Type 0
Popped es len res (out, rest) =
    (out ≡ res ++ take len (bytes_of es)) × (bytes_of rest ≡ drop len (bytes_of es)) × InBounds rest

pop_loop_lem :
    (es : List Entry) (len : ℕ) (res : List ℕ)
    → InBounds es
    → Popped es len res (pop_loop es len res)
pop_loop_lem [] len res h =
    unfold pop_loop in
    (
      sym (ap (◌++◌ res) (take_all len [] (omega arith)) ∙ append-nil res),
      sym (drop_all len [] (omega arith)),
      tt,
    )
pop_loop_lem (e ∷ es) zero res h = unfold pop_loop in (sym (append-nil res), refl, h)
pop_loop_lem (e ∷ es) (suc k) res h = elim (dec_lt (suc k) (length (entry_bytes e))) [
  | yes more ↦ rw (pop_loop_kept e es (suc k) res h.0 (omega arith) more) (
    ap (◌++◌ res) (sym (take-append_le (suc k) (entry_bytes e) (bytes_of es) (omega arith))),
    ap (λ bs. bs ++ bytes_of es) (sym (drop-drop (suc k) e.offset e.bytes))
        ∙ sym (drop-append_le (suc k) (entry_bytes e) (bytes_of es) (omega arith)),
    (omega (arith, length-drop e.offset e.bytes), h.1),
  )
  | no used ↦ rw (pop_loop_used e es (suc k) res h.0 (omega arith) (omega arith)) (
      let left = suc k - length (entry_bytes e) in
      let (out, rest, within) = pop_loop_lem es left (res ++ entry_bytes e) h.1 in
      (
        out
            ∙ append_assoc res (entry_bytes e) (take left (bytes_of es))
            ∙ ap (◌++◌ res)
                (sym (take-append_ge (suc k) (entry_bytes e) (bytes_of es) (omega arith))),
        rest ∙ sym (drop-append_ge (suc k) (entry_bytes e) (bytes_of es) (omega arith)),
        within,
      ))
]

-- `pop` returns the first `len` bytes, or all where there are fewer, and keeps the others.
pub pop_lem :
    (len : ℕ) (s : SegBuffer)
    → IsValid s
    → ((pop len s).0 ≡ take len (contents s))
      × IsValid (pop len s).1
      × (contents (pop len s).1 ≡ drop len (contents s))
unfolding pop
pop_lem len s v = (
  out,
  record {
    in_bounds = within;
    counted = omega (
      arith,
      v.counted,
      v.small,
      ap length out,
      ap length rest,
      length-take len (contents s),
      length-drop len (contents s),
    );
    small = omega arith;
  },
  rest,
)
  where
    out : (pop_loop s.buffer len []).0 ≡ take len (contents s)
    out = (pop_loop_lem s.buffer len [] v.in_bounds).0

    rest : bytes_of (pop_loop s.buffer len []).1 ≡ drop len (contents s)
    rest = (pop_loop_lem s.buffer len [] v.in_bounds).1

    within : InBounds (pop_loop s.buffer len []).1
    within = (pop_loop_lem s.buffer len [] v.in_bounds).2

pub size_lem : (s : SegBuffer) → IsValid s → size s ≡ length (contents s)
unfolding size
size_lem s v = v.counted

-- `move_pop` returns the first segment and keeps the count, if no `pop` has used some of it.
pub move_pop_lem :
    (e : Entry) (es : List Entry) (total : ℕ)
    → IsValid (record { buffer = e ∷ es; total = total })
    → e.offset ≡ 0
    → (t : SegBuffer) × (move_pop (record { buffer = e ∷ es; total = total }) ≡ some (e.bytes, t))
      × IsValid t
      × (bytes_of (e ∷ es) ≡ e.bytes ++ contents t)
unfolding move_pop
move_pop_lem e es total v z =
    let whole : entry_bytes e ≡ e.bytes = ap (λ k. drop k e.bytes) z in
    (
      record { buffer = es; total = sub_size total (length e.bytes) },
      refl,
      record {
        in_bounds = v.in_bounds.1;
        counted = omega (
          arith,
          v.counted,
          v.small,
          ap length whole,
          length-append (entry_bytes e) (bytes_of es),
        );
        small = omega arith;
      },
      ap (λ bs. bs ++ bytes_of es) whole,
    )

-- Of a segment that a `pop` has used in part, `move_pop` returns the used bytes once more and
-- takes them off the count again, so that the count is wrong from then on.
pub move_pop_replays :
    (e : Entry) (es : List Entry) (total : ℕ)
    → IsValid (record { buffer = e ∷ es; total = total })
    → 0 < e.offset
    → length e.bytes < 2 ^ 64
    → (t : SegBuffer) × (move_pop (record { buffer = e ∷ es; total = total })
        ≡ some (take e.offset e.bytes ++ entry_bytes e, t))
      × (bytes_of (e ∷ es) ≡ entry_bytes e ++ contents t)
      × ¬ IsValid t
unfolding move_pop
move_pop_replays e es total v used small = (
  record { buffer = es; total = sub_size total (length e.bytes) },
  rw (take-append-drop e.offset e.bytes) refl,
  refl,
  λ w. omega (
    arith,
    w.counted,
    v.counted,
    v.small,
    v.in_bounds.0,
    length-append (entry_bytes e) (bytes_of es),
    length-drop e.offset e.bytes,
  ),
)

-- The size falls by what is popped.
pub size-pop :
    (len : ℕ) (s : SegBuffer) → IsValid s → len ≤ size s → size (pop len s).1 + len ≡ size s
size-pop len s v h =
    let (out, w, rest) = pop_lem len s v in
    omega
      (arith, size_lem s v, size_lem (pop len s).1 w, ap length rest, length-drop len (contents s))

pub empty-IsValid : IsValid empty
unfolding empty
empty-IsValid = omega arith

pub contents-empty : contents empty ≡ []
unfolding empty
contents-empty = refl
