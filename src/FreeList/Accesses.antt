-- ===== src/FreeList/Accesses.antt =====
-- Each access of a thread keeps the account of the places.
use mathlib.Core.Option.{none-ne-some, some-injective}
use salticidae.Base.{
  ℕ, ◌+◌, ◌-◌, ◌≡◌, inl, inr, refl, sym, ap, ◌∙◌, Bool, true, false, Bool-cases, List, [], ◌∷◌,
  Option, none, some, ◌==◌, ==_iff, subst, arith, true≢false,
}
use salticidae.FreeList.{
  Memory, After, returns, Point, outside, releasing, pushing, linking, swapping, restoring, loading,
  seen, counting, holding, swinging, Thread, same, write, at, seen_top, act,
}
use salticidae.FreeList.Places.{
  hit, count, due, held, mine, pushes, restores, total, Fine, Linked, fetched_last, fetched_other,
  put_back, restored, grabbed, taken, hit-eq, same-eq, unseen,
}
use salticidae.FreeList.Around.{Around, moved, after-Around, write-All, write-Linked}

-- Each access keeps what is true around the thread.
module _ (exists : ℕ → ℕ) (others : List Thread) (owned : List ℕ) (m : Memory) where
  abbrev pub Keeps : Point → Thread × Memory → Type 0
  Keeps p (t, n) = Around exists m (at p owned) others → Around exists n t others

  releasing_lem :
      (u : ℕ) (k : After) (fails : Bool) → Keeps (releasing u k) (act fails (releasing u k) owned m)
  unfolding act
  releasing_lem u k fails i = elim (Bool-cases (m.refcnt u == 1)) [
    | inl y ↦ rw y (record {
      chain = i.chain;
      linked = i.linked;
      fine = λ v.
          fetched_last _ (v == u) _ _ _ _ _ _ (m.refcnt u - 1)
            (λ e. ap (λ z. m.refcnt z - 1) (sym (hit-eq v u e)))
            (λ e. ap m.refcnt (hit-eq v u e) ∙ (==_iff (m.refcnt u) 1).0 y) (i.fine v);
      agrees = tt;
      others_agree = i.others_agree;
    })
    | inr n ↦ rw n (
        after-Around exists k owned others (record m { refcnt = write u (m.refcnt u - 1) m.refcnt })
          i.chain i.linked
          (λ v.
            fetched_other _ (v == u) _ _ _ _ _ _ (m.refcnt u - 1)
              (λ e. ap (λ z. m.refcnt z - 1) (sym (hit-eq v u e)))
              (λ e l.
                true≢false
                  (sym ((==_iff (m.refcnt u) 1).1 (ap m.refcnt (sym (hit-eq v u e)) ∙ l)) ∙ n))
              (i.fine v))
          i.others_agree)
  ]

  restoring_lem :
      (u : ℕ) (k : After) (fails : Bool) → Keeps (restoring u k) (act fails (restoring u k) owned m)
  unfolding act
  restoring_lem u k fails i =
      after-Around exists k owned others (record m { refcnt = write u 1 m.refcnt }) i.chain i.linked
        (λ v. restored _ (v == u) _ _ _ _ _ _ 1 (λ e. refl) (i.fine v)) i.others_agree

  linking_lem :
      (w : Option ℕ) (u : ℕ) (k : After) (fails : Bool)
      → Keeps (linking w u k) (act fails (linking w u k) owned m)
  unfolding act
  linking_lem w u k fails i =
      let (none_held, none_listed, none_pushing) = unseen _ _ _ _ _ _ _ (
        subst
          (λ x.
            Fine (exists u) (m.refcnt u) (0 + total (held u) others) (count u i.chain)
              (count u owned + due u k + total (mine u) others) (x + total (pushes u) others)
              (0 + total (restores u) others))
          (rw ((==_iff u u).1 refl) refl) (i.fine u)) in
      record {
        chain = i.chain;
        linked = write-Linked m.next u w m.top i.chain none_listed i.linked;
        fine = i.fine;
        agrees = rw ((==_iff u u).1 refl) refl;
        others_agree = write-All m.next u w others none_held none_pushing i.others_agree;
      }

  swapping_lem :
      (w : Option ℕ) (u : ℕ) (k : After) (fails : Bool)
      → Keeps (swapping w u k) (act fails (swapping w u k) owned m)
  unfolding act
  swapping_lem w u k true i = moved i _ i.fine tt
  swapping_lem w u k false i = elim (Bool-cases (same m.top w)) [
    | inl y ↦ rw y (record {
      chain = u ∷ i.chain;
      linked =
          (refl, subst (λ t. Linked m.next t i.chain) (same-eq m.top w y ∙ sym i.agrees) i.linked);
      fine = λ v. put_back _ (v == u) _ _ _ _ _ _ 0 (i.fine v);
      agrees = tt;
      others_agree = i.others_agree;
    })
    | inr n ↦ rw n (moved i _ i.fine tt)
  ]

  counting_lem : (u n : ℕ) (fails : Bool) → Keeps (counting u n) (act fails (counting u n) owned m)
  unfolding act
  counting_lem u n true i = moved i _ i.fine tt
  counting_lem u n false i = elim (Bool-cases (m.refcnt u == n)) [
    | inl y ↦
        let same_count : m.refcnt u ≡ n = (==_iff (m.refcnt u) n).0 y in
        rw y (record {
          chain = i.chain;
          linked = i.linked;
          fine = λ v.
              grabbed _ (v == u) _ _ _ _ _ _ (n + 1)
                (λ e. omega (arith, same_count, ap m.refcnt (hit-eq v u e)))
                (λ e. omega (arith, same_count, ap m.refcnt (hit-eq v u e), i.agrees)) (i.fine v);
          agrees = tt;
          others_agree = i.others_agree;
        })
    | inr o ↦ rw o (moved i _ i.fine tt)
  ]

  swinging_lem :
      (u : ℕ) (w : Option ℕ) (fails : Bool)
      → Keeps (swinging u w) (act fails (swinging u w) owned m)
  unfolding act
  swinging_lem u w true i = moved i _ i.fine tt
  swinging_lem u w false i = elim (Bool-cases (same m.top (some u))) [
    | inl y ↦ rw y (popped i.chain (same-eq m.top (some u) y) i.linked i.fine)
    | inr n ↦ rw n (moved i _ i.fine tt)
  ]
    where
      popped :
          (chain : List ℕ)
          → m.top ≡ some u
          → Linked m.next m.top chain
          → ((v : ℕ)
              → Fine
                  (exists v)
                  (m.refcnt v)
                  (hit v u + total (held v) others)
                  (count v chain)
                  (count v owned + 0 + total (mine v) others)
                  (0 + total (pushes v) others)
                  (0 + total (restores v) others))
          → Around exists (record m { top = w }) (at (releasing u (returns u)) owned) others
      popped [] e l f = absurd (none-ne-some u (sym l ∙ e))
      popped (x ∷ xs) e (t, l) f =
          let first : x ≡ u = some-injective x u (sym t ∙ e) in
          record {
            chain = xs;
            linked = subst (λ z. Linked m.next z xs) (ap m.next first ∙ i.agrees) l;
            fine = λ v.
                taken (exists v) (v == u) (m.refcnt v) (total (held v) others) (count v xs) 0
                  (total (pushes v) others) (total (restores v) others) 0 (count v owned)
                  (total (mine v) others)
                  (subst
                    (λ z.
                      Fine (exists v) (m.refcnt v) (hit v u + total (held v) others)
                        (hit v z + count v xs) (count v owned + 0 + total (mine v) others)
                        (0 + total (pushes v) others) (0 + total (restores v) others))
                    first (f v));
            agrees = tt;
            others_agree = i.others_agree;
          }

  -- The accesses that only read.
  pub act-Keeps : (q : Point) (fails : Bool) → Keeps q (act fails q owned m)
  unfolding act seen_top
  act-Keeps outside fails i = i
  act-Keeps (releasing u k) fails i = releasing_lem u k fails i
  act-Keeps (pushing u k) fails i = moved i _ i.fine tt
  act-Keeps (linking w u k) fails i = linking_lem w u k fails i
  act-Keeps (swapping w u k) fails i = swapping_lem w u k fails i
  act-Keeps (restoring u k) fails i = restoring_lem u k fails i
  act-Keeps loading fails i = by_top m.top
    where
      by_top : (o : Option ℕ) → Around exists m (seen_top o owned) others
      by_top none = moved i _ i.fine tt
      by_top (some u) = moved i _ i.fine tt
  act-Keeps (seen u) fails i = elim (Bool-cases (m.refcnt u == 0)) [
    | inl y ↦ rw y (moved i _ i.fine tt)
    | inr n ↦ rw n (moved i _ i.fine (grind (arith, n)))
  ]
  act-Keeps (counting u n) fails i = counting_lem u n fails i
  act-Keeps (holding u) fails i = moved i _ i.fine refl
  act-Keeps (swinging u w) fails i = swinging_lem u w fails i
