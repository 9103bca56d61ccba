-- ===== src/ConnPool/Workers.antt =====
-- `select_worker` of include/salticidae/conn.h.
use salticidae.Base.{
  ℕ, zero, suc, ◌+◌, ◌<◌, ◌≤◌, ◌≡◌, refl, sym, ap, subst, List, [], ◌∷◌, ◌++◌, length, take,
  get_elem?, some, ltb, ltb→lt, ltb-false→le, if◌then◌else◌, if-cases, arith, length-append,
  append_assoc, append-nil, get_middle, take-append_self,
}
use salticidae.Bytes.{All, All-append}

-- The index and the least number of connections so far.
pub record Choice : Type 0 where
  pub idx : ℕ
  pub best : ℕ

-- The loop, over what `get_nconn` returns for the workers from `i` on.
least : ℕ → List ℕ → Choice → Choice
least i [] c = c
least i (t ∷ ts) c =
    let better = least (i + 1) ts (record { idx = i; best = t }) in
    let same = least (i + 1) ts c in if ltb t c.best then better else same

-- The index of the worker. `first` is the number of connections of the first worker before the loop.
pub select_worker : ℕ → List ℕ → ℕ
unfolding least
select_worker first counts = (least 0 counts (record { idx = 0; best = first })).idx

-- The choice so far: the worker has the least count of those before, and those before it have more.
abbrev IsLeast : List ℕ → Choice → Type 0
IsLeast counts c =
    (get_elem? counts c.idx ≡ some c.best)
    × All (λ t. c.best ≤ t) counts
    × All (λ t. c.best < t) (take c.idx counts)

get_elem?-append :
    (xs ys : List ℕ) (i x : ℕ) → get_elem? xs i ≡ some x → get_elem? (xs ++ ys) i ≡ some x
get_elem?-append [] ys i x e = cc
get_elem?-append (a ∷ xs) ys zero x e = e
get_elem?-append (a ∷ xs) ys (suc i) x e = get_elem?-append xs ys i x e

take-snoc :
    (xs : List ℕ) (y i x : ℕ) → get_elem? xs i ≡ some x → take i (xs ++ (y ∷ [])) ≡ take i xs
take-snoc [] y i x e = cc
take-snoc (a ∷ xs) y zero x e = refl
take-snoc (a ∷ xs) y (suc i) x e = ap (◌∷◌ a) (take-snoc xs y i x e)

All-map : (P Q : ℕ → Type 0) (xs : List ℕ) → ((x : ℕ) → P x → Q x) → All P xs → All Q xs
All-map P Q [] f h = tt
All-map P Q (x ∷ xs) f h = (f x h.0, All-map P Q xs f h.1)

least_lem :
    (i : ℕ) (seen ts : List ℕ) (c : Choice)
    → length seen ≡ i
    → IsLeast seen c
    → IsLeast (seen ++ ts) (least i ts c)
unfolding least
least_lem i seen [] c n h = subst (λ l. IsLeast l c) (sym (append-nil seen)) h
least_lem i seen (t ∷ ts) c n (at, all, before) =
    subst (λ l. IsLeast l (least i (t ∷ ts) c)) (append_assoc seen (t ∷ []) ts)
      (if-cases (IsLeast ((seen ++ (t ∷ [])) ++ ts)) (ltb t c.best) _ _
        (λ y. least_lem (i + 1) (seen ++ (t ∷ [])) ts _ longer (better (ltb→lt t c.best y)))
        (λ n. least_lem (i + 1) (seen ++ (t ∷ [])) ts c longer (same (ltb-false→le t c.best n))))
  where
    longer : length (seen ++ (t ∷ [])) ≡ i + 1
    longer = omega (arith, n, length-append seen (t ∷ []))

    better : t < c.best → IsLeast (seen ++ (t ∷ [])) (record { idx = i; best = t })
    better l = (
      get_middle i seen [] t n,
      All-append (λ x. t ≤ x) seen (t ∷ [])
          (All-map (λ x. c.best ≤ x) (λ x. t ≤ x) seen (λ x h. omega arith) all) (omega arith, tt),
      subst (All (λ x. t < x)) (sym (take-append_self i seen (t ∷ []) n))
          (All-map (λ x. c.best ≤ x) (λ x. t < x) seen (λ x h. omega arith) all),
    )

    same : c.best ≤ t → IsLeast (seen ++ (t ∷ [])) c
    same l = (
      get_elem?-append seen (t ∷ []) c.idx c.best at,
      All-append (λ x. c.best ≤ x) seen (t ∷ []) all (l, tt),
      subst (All (λ x. c.best < x)) (sym (take-snoc seen t c.idx c.best at)) before,
    )

-- If no count changes meanwhile, the worker chosen is one of the workers, has the fewest connections, and
-- is the first that does.
pub select_worker_lem :
    (n : ℕ) (ns : List ℕ)
    → (best : ℕ) × (get_elem? (n ∷ ns) (select_worker n (n ∷ ns)) ≡ some best)
      × All (λ t. best ≤ t) (n ∷ ns)
      × All (λ t. best < t) (take (select_worker n (n ∷ ns)) (n ∷ ns))
unfolding select_worker least
select_worker_lem n ns =
    let start : Choice = record { idx = 0; best = n } in
    let loop = least_lem 1 (n ∷ []) ns start refl (refl, (omega arith, tt), tt) in
    let h : IsLeast (n ∷ ns) (least 0 (n ∷ ns) start) =
      if-cases (IsLeast (n ∷ ns)) (ltb n n) _ _ (λ y. loop) (λ n. loop) in
    ((least 0 (n ∷ ns) start).best, h.0, h.1, h.2)
