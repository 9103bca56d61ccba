-- ===== src/Blob/RoundTrip.antt =====
-- A blob and its bytes.
use native.Mathlib.Nat.{pow-succ', mul_assoc, le-mul_of_pos_right, one-le-pow, mul-le-mul_right}
use native.Mathlib.Decide.{ℕ_discrete}
use mathlib.Core.List.{reverse, reverse_aux, reverse-append, reverse-reverse}
use salticidae.Base.{
  ℕ, zero, suc, ◌+◌, ◌*◌, ◌/◌, ◌%◌, ◌^◌, ◌<◌, ◌≤◌, ◌≡◌, refl, sym, subst, ap, ◌∙◌, true, List, [],
  ◌∷◌, ◌++◌, length, take, drop, ok, err, invalid_argument, ◌⊎◌, inl, inr, ==_iff, ==-false, arith,
  append_assoc, append-nil, take-append-drop, length-reverse_aux, length-take, length-drop,
  drop-append_self,
}
use salticidae.Bytes.{reverse_aux-All, IsByte, All, le_bytes, from_le, length-le_bytes, take-All}
use salticidae.Platform.{Platform}
use salticidae.Stream.{DataStream, put_int}
use salticidae.Stream.Reading.{IsValid, unread, unread-put_int, get_int-append}
use salticidae.Blob.{
  Blob, load_word, load_words, load, of_bytes, put_words, serialize, get_words, unserialize,
}

-- The bytes of the words, as they are sent.
abbrev pub bytes_of : List ℕ → List ℕ
bytes_of [] = []
bytes_of (w ∷ ws) = le_bytes 8 w ++ bytes_of ws

le_bytes-from_le : (bs : List ℕ) → All IsByte bs → le_bytes (length bs) (from_le bs) ≡ bs
unfolding le_bytes from_le
le_bytes-from_le [] h = refl
le_bytes-from_le (b ∷ bs) h =
    let low : (b + 256 * from_le bs) % 256 ≡ b = omega (arith, h.0) in
    let high : (b + 256 * from_le bs) / 256 ≡ from_le bs = omega (arith, h.0) in
    rw (low, high) (ap (◌∷◌ b) (le_bytes-from_le bs h.1))

drop-All : (n : ℕ) (xs : List ℕ) → All IsByte xs → All IsByte (drop n xs)
drop-All zero xs h = h
drop-All (suc n) [] h = tt
drop-All (suc n) (x ∷ xs) h = drop-All n xs h.1

-- There is room for a further byte.
shift_room :
    (d b q m : ℕ)
    → (d + 1) * (256 * q) ≤ m
    → b < 256
    → 0 < q
    → (d * 256 < m) × ((b + 256 * d + 1) * q ≤ m)
shift_room d b q m h small pos =
    let k : (d + 1) * (256 * q) ≡ ((d + 1) * 256) * q = sym (mul_assoc (d + 1) 256 q) in
    let at_least : (d + 1) * 256 ≤ ((d + 1) * 256) * q = le-mul_of_pos_right ((d + 1) * 256) pos in
    let next : b + 256 * d + 1 ≤ (d + 1) * 256 = omega (arith, small) in
    (omega (arith, h, k, at_least), omega (arith, h, k, mul-le-mul_right q next))

-- The shifts put the bytes in place, and none is shifted out.
load_word_lem :
    (front rest done : List ℕ)
    → All IsByte front
    → (from_le done + 1) * 256 ^ length front ≤ 2 ^ 64
    → load_word (length front) (front ++ rest) (from_le done) ≡ from_le (reverse_aux front done)
unfolding load_word from_le
load_word_lem [] rest done h small = refl
load_word_lem (b ∷ front) rest done h small =
    let (fits, room) =
      shift_room (from_le done) b (256 ^ length front) (2 ^ 64)
        (subst (λ x. (from_le done + 1) * x ≤ 2 ^ 64) (pow-succ' 256 (length front)) small) h.0
        (omega (arith, one-le-pow (length front) 256 (omega arith))) in
    let e : (from_le done * 256) % 2 ^ 64 + b ≡ b + 256 * from_le done = omega (arith, fits) in
    rw e (load_word_lem front rest (b ∷ done) h.1 room)

-- The last word is read from the last eight bytes.
last_word :
    (front last : List ℕ)
    → length last ≡ 8
    → All IsByte last
    → le_bytes 8 (load_word 8 (reverse last ++ reverse front) 0) ≡ last
unfolding from_le
last_word front last n h =
    let k : length (reverse last) ≡ 8 = omega (arith, n, length-reverse_aux last []) in
    let word : load_word 8 (reverse last ++ reverse front) 0 ≡ from_le last =
      ap (λ j. load_word j (reverse last ++ reverse front) 0) (sym k)
      ∙ load_word_lem (reverse last) (reverse front) [] (reverse_aux-All IsByte last [] h tt)
          (rw k (omega arith))
      ∙ ap from_le (reverse-reverse last) in
    ap (le_bytes 8) word ∙ ap (λ j. le_bytes j (from_le last)) (sym n) ∙ le_bytes-from_le last h

load_words_lem :
    (n : ℕ) (bs ws : List ℕ)
    → length bs ≡ 8 * n
    → All IsByte bs
    → bytes_of (load_words n (reverse bs) ws) ≡ bs ++ bytes_of ws
unfolding load_words
load_words_lem zero [] ws e h = refl
load_words_lem zero (b ∷ bs) ws e h = absurd (omega (arith, e))
load_words_lem (suc n) bs ws e h =
    let front = take (8 * n) bs in
    let last = drop (8 * n) bs in
    let whole : front ++ last ≡ bs = take-append-drop (8 * n) bs in
    let back : reverse bs ≡ reverse last ++ reverse front =
      ap reverse (sym whole) ∙ reverse-append front last in
    let n_last : length last ≡ 8 = omega (arith, e, length-drop (8 * n) bs) in
    let rest : drop 8 (reverse last ++ reverse front) ≡ reverse front =
      drop-append_self 8 (reverse last) (reverse front)
        (omega (arith, n_last, length-reverse_aux last [])) in
    let ih =
      load_words_lem n front (load_word 8 (reverse last ++ reverse front) 0 ∷ ws)
        (omega (arith, e, length-take (8 * n) bs)) (take-All IsByte (8 * n) bs h) in
    ap (λ l. bytes_of (load_words n (drop 8 l) (load_word 8 l 0 ∷ ws))) back
    ∙ ap (λ l. bytes_of (load_words n l (load_word 8 (reverse last ++ reverse front) 0 ∷ ws))) rest
    ∙ ih
    ∙ ap (λ l. front ++ (l ++ bytes_of ws)) (last_word front last n_last (drop-All (8 * n) bs h))
    ∙ sym (append_assoc front last (bytes_of ws))
    ∙ ap (λ l. l ++ bytes_of ws) whole

load_word-lt :
    (j : ℕ) (bytes : List ℕ) (x : ℕ) → All IsByte bytes → x < 2 ^ 64 → load_word j bytes x < 2 ^ 64
unfolding load_word
load_word-lt zero bytes x h small = small
load_word-lt (suc j) [] x h small = small
load_word-lt (suc j) (b ∷ bytes) x h small = load_word-lt j bytes _ h.1 (omega (arith, h.0))

abbrev IsWord : ℕ → Type 0
IsWord w = w < 256 ^ 8

load_words-All :
    (n : ℕ) (bytes ws : List ℕ)
    → All IsByte bytes
    → All IsWord ws
    → All IsWord (load_words n bytes ws) × (length (load_words n bytes ws) ≡ n + length ws)
unfolding load_words
load_words-All zero bytes ws h k = (k, omega arith)
load_words-All (suc n) bytes ws h k =
    let (all, count) =
      load_words-All n (drop 8 bytes) (load_word 8 bytes 0 ∷ ws) (drop-All 8 bytes h)
        (load_word-lt 8 bytes 0 h (omega arith), k) in
    (all, omega (arith, count))

module _ (p : Platform) where
  pub put_words_lem :
      (ws : List ℕ) (s : DataStream)
      → IsValid s
      → All (λ w. w < 256 ^ 8) ws
      → IsValid (put_words p ws s) × (unread (put_words p ws s) ≡ unread s ++ bytes_of ws)
  unfolding put_words
  put_words_lem [] s v h = (v, sym (append-nil (unread s)))
  put_words_lem (w ∷ ws) s v h =
      let (v1, u1) = unread-put_int p 8 (p.htole 8 w) s v in
      let (v2, u2) = put_words_lem ws (put_int p 8 (p.htole 8 w) s) v1 h.1 in
      (
        v2,
        u2
            ∙ ap (λ l. l ++ bytes_of ws) (u1 ∙ ap (λ l. unread s ++ l) (p.store-htole 8 w h.0))
            ∙ append_assoc (unread s) (le_bytes 8 w) (bytes_of ws),
      )

  pub get_words_lem :
      (ws : List ℕ) (s : DataStream) (rest : List ℕ)
      → IsValid s
      → All (λ w. w < 256 ^ 8) ws
      → unread s ≡ bytes_of ws ++ rest
      → (t : DataStream) × (get_words p (length ws) s ≡ ok (ws, t)) × IsValid t × (unread t ≡ rest)
  unfolding get_words
  get_words_lem [] s rest v h e = (s, refl, v, e)
  get_words_lem (w ∷ ws) s rest v h e =
      let (s1, e1, v1, u1) =
        get_int-append p 8 s (le_bytes 8 w) (bytes_of ws ++ rest) v
          (e ∙ append_assoc (le_bytes 8 w) (bytes_of ws) rest) (length-le_bytes 8 w) in
      let (s2, e2, v2, u2) = get_words_lem ws s1 rest v1 h.1 u1 in
      (s2, rw e1 (rw e2 (simp (p.letoh-load 8 w h.0))), v2, u2)

  -- A blob is made of N / 8 bytes, and of no other number. It is written as these bytes on any host, and
  -- read back as itself from a stream `r` where they come next, and what follows them is left.
  pub of_bytes_lem :
      (n : ℕ) (bs rest : List ℕ) (s r : DataStream)
      → All IsByte bs
      → IsValid s
      → IsValid r
      → unread r ≡ bs ++ rest
      → (¬ (length bs ≡ 8 * n) × (of_bytes n bs ≡ err invalid_argument))
        ⊎ ((b : Blob) × (of_bytes n bs ≡ ok b)
            × (unread (serialize p b s) ≡ unread s ++ bs)
            × ((t : DataStream) × (unserialize p n r ≡ ok (b, t)) × (unread t ≡ rest)))
  unfolding of_bytes load serialize unserialize
  of_bytes_lem n bs rest s r h v w e = elim (ℕ_discrete (length bs) (8 * n)) [
    | no other ↦ inl (other, rw (==-false (length bs) (8 * n) other) refl)
    | yes fits ↦
        let ws = load_words n (reverse bs) [] in
        let same : bytes_of ws ≡ bs = load_words_lem n bs [] fits h ∙ append-nil bs in
        let (words, count) =
          load_words-All n (reverse bs) [] (reverse_aux-All IsByte bs [] h tt) tt in
        let (v1, written) = put_words_lem ws s v words in
        let (t, got, v2, left) =
          get_words_lem ws r rest w words (e ∙ ap (λ l. l ++ rest) (sym same)) in
        let n_words : length ws ≡ n = omega (arith, count) in
        let read : get_words p n r ≡ ok (ws, t) = ap (λ k. get_words p k r) (sym n_words) ∙ got in
        inr (
          record { words = ws; loaded = true },
          rw ((==_iff (length bs) (8 * n)).1 fits) refl,
          written ∙ ap (λ l. unread s ++ l) same,
          (t, rw read refl, left),
        )
  ]
