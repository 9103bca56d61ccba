-- ===== src/Text/Splitting.antt =====
-- The pieces of a string that is split are what stands between the delimiters.
use mathlib.Core.Option.{none-ne-some, some-injective}
use salticidae.Base.{
  ℕ, zero, suc, ◌+◌, ◌-◌, ◌≤◌, ◌<◌, ◌≡◌, inl, inr, refl, sym, ap, subst, ◌∙◌, true, false,
  Bool-cases, Option-cases, List, [], ◌∷◌, ◌++◌, length, take, drop, Option, none, some, ◌==◌,
  ==_iff, arith, append_assoc, take_all, drop-drop, length-drop, true≢false,
}
use salticidae.Bytes.{All}
use salticidae.Text.{is_prefix, next, find, substr, find_from, behind, cut, split_loop, split}

is_prefix-append :
    (ds xs : List ℕ)
    → is_prefix ds xs ≡ true
    → (length ds ≤ length xs) × (xs ≡ ds ++ drop (length ds) xs)
unfolding is_prefix
is_prefix-append [] xs e = (omega arith, refl)
is_prefix-append (d ∷ ds) [] e = absurd (true≢false (sym e))
is_prefix-append (d ∷ ds) (x ∷ xs) e = elim (Bool-cases (d == x)) [
  | inl y ↦
      let (n, k) = is_prefix-append ds xs (rw y at e) in
      (omega (arith, n), ap (λ z. z ∷ xs) (sym ((==_iff d x).0 y)) ∙ ap (◌∷◌ d) k)
  | inr n ↦ absurd (true≢false (sym (rw n at e)))
]

is_prefix-take :
    (ds xs : List ℕ) (n : ℕ) → is_prefix ds xs ≡ false → is_prefix ds (take n xs) ≡ false
unfolding is_prefix
is_prefix-take [] xs n e = e
is_prefix-take (d ∷ ds) xs zero e = refl
is_prefix-take (d ∷ ds) [] (suc n) e = refl
is_prefix-take (d ∷ ds) (x ∷ xs) (suc n) e = elim (Bool-cases (d == x)) [
  | inl y ↦ rw y (is_prefix-take ds xs n (rw y at e))
  | inr o ↦ rw o refl
]

record Found (delim xs : List ℕ) (n : ℕ) : Type 0 where
  room : n + length delim ≤ length xs
  parts : xs ≡ take n xs ++ (delim ++ drop (n + length delim) xs)
  first : find delim (take n xs) ≡ none

empty_lem : (ds : List ℕ) → 0 < length ds → find ds [] ≡ none
unfolding find is_prefix
empty_lem [] h = absurd (omega (arith, h))
empty_lem (d ∷ ds) h = refl

module _ (delim : List ℕ) (filled : 0 < length delim) where
  find-empty : find delim [] ≡ none
  find-empty = empty_lem delim filled

  found_here : (xs : List ℕ) → is_prefix delim xs ≡ true → Found delim xs 0
  found_here xs y =
      let (n, k) = is_prefix-append delim xs y in
      record {
        room = omega (arith, n);
        parts =
            let e : length delim ≡ 0 + length delim = omega arith in
            k ∙ ap (λ m. delim ++ drop m xs) e;
        first = find-empty;
      }

  later :
      (x : ℕ) (xs : List ℕ) (k : ℕ)
      → is_prefix delim (x ∷ xs) ≡ false
      → Found delim xs k
      → Found delim (x ∷ xs) (suc k)
  unfolding find
  later x xs k o f = record {
    room = omega (arith, f.room);
    parts =
        let e : suc (k + length delim) ≡ suc k + length delim = omega arith in
        ap (◌∷◌ x) f.parts ∙ ap (λ m. x ∷ (take k xs ++ (delim ++ drop m (x ∷ xs)))) e;
    first = rw (is_prefix-take delim (x ∷ xs) (suc k) o) (ap next f.first);
  }

  find-Found : (xs : List ℕ) (n : ℕ) → find delim xs ≡ some n → Found delim xs n
  unfolding find
  find-Found [] n e = absurd (none-ne-some n (sym find-empty ∙ e))
  find-Found (x ∷ xs) n e = elim (Bool-cases (is_prefix delim (x ∷ xs))) [
    | inl y ↦ subst (Found delim (x ∷ xs)) (some-injective 0 n (rw y at e)) (found_here (x ∷ xs) y)
    | inr o ↦ elim (Option-cases (find delim xs)) [
      | inl none_left ↦ absurd (none-ne-some n (ap next (sym none_left) ∙ rw o at e))
      | inr (k, at_k) ↦
          subst (Found delim (x ∷ xs)) (some-injective (suc k) n (ap next (sym at_k) ∙ rw o at e))
            (later x xs k o (find-Found xs k at_k))
    ]
  ]

-- The pieces with the delimiter between them.
abbrev pub join : List ℕ → List ℕ → List (List ℕ) → List ℕ
join delim x [] = x
join delim x (y ∷ ys) = x ++ (delim ++ join delim y ys)

abbrev pub IsFree : List ℕ → List ℕ → Type 0
IsFree delim x = find delim x ≡ none

module _ (s delim : List ℕ) (filled : 0 < length delim) where
  abbrev Pieces : Option (List (List ℕ)) → List (List ℕ) → List ℕ → Type 0
  Pieces o res left =
      (x : List ℕ) × (ys : List (List ℕ)) × (o ≡ some (res ++ (x ∷ ys)))
      × (join delim x ys ≡ left)
      × All (IsFree delim) (x ∷ ys)

  module _ (fuel lastpos : ℕ) (res : List (List ℕ)) (h : lastpos ≤ length s) where
    -- One round, by what `find` says.
    abbrev Round : Option ℕ → Type 0
    Round o =
        Pieces (cut s delim lastpos res (split_loop fuel s delim) (behind lastpos o)) res
          (drop lastpos s)

    whole : substr s lastpos (length s - lastpos) ≡ drop lastpos s
    whole = take_all (length s - lastpos) (drop lastpos s) (omega (arith, length-drop lastpos s))

    last_piece : find delim (drop lastpos s) ≡ none → Round none
    unfolding cut behind
    last_piece e =
        (substr s lastpos (length s - lastpos), [], refl, whole, (ap (find delim) whole ∙ e, tt))

    next_piece :
        (n : ℕ)
        → Found delim (drop lastpos s) n
        → Pieces
            (split_loop fuel s delim
              (lastpos + n + length delim)
              (res ++ (substr s lastpos (lastpos + n - lastpos) ∷ [])))
            (res ++ (substr s lastpos (lastpos + n - lastpos) ∷ []))
            (drop (lastpos + n + length delim) s)
        → Round (some n)
    unfolding cut behind
    next_piece n f (x, ys, e, joined, free) =
        let here : lastpos + n - lastpos ≡ n = omega arith in
        let piece : substr s lastpos (lastpos + n - lastpos) ≡ take n (drop lastpos s) =
          ap (λ k. take k (drop lastpos s)) here in
        let pos : lastpos + (n + length delim) ≡ lastpos + n + length delim = omega arith in
        (
          substr s lastpos (lastpos + n - lastpos),
          x ∷ ys,
          e ∙ ap some (append_assoc res (substr s lastpos (lastpos + n - lastpos) ∷ []) (x ∷ ys)),
          ap (λ t. t ++ (delim ++ join delim x ys)) piece
              ∙ ap (λ t. take n (drop lastpos s) ++ (delim ++ t))
                  (joined ∙ sym (drop-drop (n + length delim) lastpos s ∙ ap (λ k. drop k s) pos))
              ∙ sym f.parts,
          (ap (find delim) piece ∙ f.first, free),
        )

  split_loop_lem :
      (fuel lastpos : ℕ) (res : List (List ℕ))
      → lastpos ≤ length s
      → length s - lastpos < fuel
      → Pieces (split_loop fuel s delim lastpos res) res (drop lastpos s)
  unfolding split_loop find_from
  split_loop_lem zero lastpos res h l = absurd (omega (arith, l))
  split_loop_lem (suc fuel) lastpos res h l = elim (Option-cases (find delim (drop lastpos s))) [
    | inl e ↦ subst (Round fuel lastpos res h) (sym e) (last_piece fuel lastpos res h e)
    | inr (n, e) ↦
        let f = find-Found delim filled (drop lastpos s) n e in
        subst (Round fuel lastpos res h) (sym e) (
          next_piece fuel lastpos res h n f (
            split_loop_lem fuel (lastpos + n + length delim) _
              (omega (arith, f.room, length-drop lastpos s, h))
              (omega (arith, f.room, length-drop lastpos s, h, l, filled))))
  ]

-- A string is split at a delimiter that is not empty: the call ends, the delimiter is in none of the pieces, and the
-- pieces with the delimiter between them are the string.
pub split_lem :
    (s delim : List ℕ)
    → 0 < length delim
    → (x : List ℕ) × (ys : List (List ℕ)) × (split s delim ≡ some (x ∷ ys))
      × (join delim x ys ≡ s)
      × All (IsFree delim) (x ∷ ys)
unfolding split
split_lem s delim filled =
    split_loop_lem s delim filled (suc (length s)) 0 [] (omega arith) (omega arith)

-- With an empty delimiter no fuel is enough: the loop of the source adds empty pieces for ever.
split_loop_empty : (fuel : ℕ) (s : List ℕ) (res : List (List ℕ)) → split_loop fuel s [] 0 res ≡ none
unfolding split_loop find_from cut behind find is_prefix
split_loop_empty zero s res = refl
split_loop_empty (suc fuel) [] res = split_loop_empty fuel [] _
split_loop_empty (suc fuel) (x ∷ xs) res = split_loop_empty fuel (x ∷ xs) _
