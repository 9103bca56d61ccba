-- ===== src/Text.antt =====
-- `split` of src/util.cpp, on strings as lists of characters.
pub mod Splitting
use salticidae.Base.{
  ℕ, zero, suc, ◌+◌, ◌-◌, Bool, true, false, ◌&&◌, List, [], ◌∷◌, ◌++◌, length, take, drop, Option,
  none, some, ◌==◌, if◌then◌else◌,
}

is_prefix : List ℕ → List ℕ → Bool
is_prefix [] xs = true
is_prefix (d ∷ ds) [] = false
is_prefix (d ∷ ds) (x ∷ xs) = (d == x) && is_prefix ds xs

abbrev pub next : Option ℕ → Option ℕ
next none = none
next (some n) = some (suc n)

-- Where `delim` is in a string first.
pub find : List ℕ → List ℕ → Option ℕ
unfolding is_prefix
find delim [] = if is_prefix delim [] then some 0 else none
find delim (x ∷ xs) =
    let rest = find delim xs in if is_prefix delim (x ∷ xs) then some 0 else next rest

-- `s.substr(pos, len)`
abbrev pub substr : List ℕ → ℕ → ℕ → List ℕ
substr s pos len = take len (drop pos s)

behind : ℕ → Option ℕ → Option ℕ
behind lastpos none = none
behind lastpos (some n) = some (lastpos + n)

-- `s.find(delim, lastpos)`
find_from : List ℕ → List ℕ → ℕ → Option ℕ
unfolding find behind
find_from delim s lastpos = behind lastpos (find delim (drop lastpos s))

-- What the loop does with the next delimiter; `more` is the next round.
cut :
    List ℕ
    → List ℕ
    → ℕ
    → List (List ℕ)
    → (ℕ → List (List ℕ) → Option (List (List ℕ)))
    → Option ℕ
    → Option (List (List ℕ))
cut s delim lastpos res more none = some (res ++ (substr s lastpos (length s - lastpos) ∷ []))
cut s delim lastpos res more (some pos) =
    more (pos + length delim) (res ++ (substr s lastpos (pos - lastpos) ∷ []))

-- `none` if the fuel runs out.
split_loop : ℕ → List ℕ → List ℕ → ℕ → List (List ℕ) → Option (List (List ℕ))
unfolding find_from cut
split_loop zero s delim lastpos res = none
split_loop (suc fuel) s delim lastpos res =
    cut s delim lastpos res (split_loop fuel s delim) (find_from delim s lastpos)

-- Each round that goes on moves behind a delimiter.
pub split : List ℕ → List ℕ → Option (List (List ℕ))
unfolding split_loop
split s delim = split_loop (suc (length s)) s delim 0 []
