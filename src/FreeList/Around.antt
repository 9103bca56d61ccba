-- ===== src/FreeList/Around.antt =====
-- One thread among the others: the account of the places, and how it is kept when the thread moves on.
use salticidae.Base.{ℕ, ◌+◌, ◌≡◌, sym, ◌∙◌, List, [], ◌∷◌, Option, subst, arith}
use salticidae.Bytes.{All}
use salticidae.FreeList.{
  Memory, After, ends, again, returns, outside, releasing, pushing, linking, swapping, restoring,
  loading, seen, counting, holding, swinging, Thread, write, after, at,
}
use salticidae.FreeList.Places.{
  hit, count, due, held, mine, pushes, restores, Agrees, total, Fine, Linked, write-apart,
}

-- One thread among the others.
pub record Around (exists : ℕ → ℕ) (m : Memory) (t : Thread) (others : List Thread) : Type 0 where
  pub chain : List ℕ
  pub linked : Linked m.next m.top chain
  pub fine :
      (u : ℕ)
      → Fine
          (exists u)
          (m.refcnt u)
          (held u t + total (held u) others)
          (count u chain)
          (mine u t + total (mine u) others)
          (pushes u t + total (pushes u) others)
          (restores u t + total (restores u) others)
  pub agrees : Agrees m.next t
  pub others_agree : All (Agrees m.next) others

-- A thread moves on, and the memory is as before.
pub moved :
    {exists : ℕ → ℕ} {m : Memory} {t : Thread} {others : List Thread} (i : Around exists m t others)
    (u : Thread)
    → ((v : ℕ)
        → Fine
            (exists v)
            (m.refcnt v)
            (held v u + total (held v) others)
            (count v i.chain)
            (mine v u + total (mine v) others)
            (pushes v u + total (pushes v) others)
            (restores v u + total (restores v) others))
    → Agrees m.next u
    → Around exists m u others
moved i u f a = record {
  chain = i.chain;
  linked = i.linked;
  fine = f;
  agrees = a;
  others_agree = i.others_agree;
}

-- `release_ref` returns.
pub after-Around :
    (exists : ℕ → ℕ) (k : After) (owned : List ℕ) (others : List Thread) (m : Memory)
    (chain : List ℕ)
    → Linked m.next m.top chain
    → ((u : ℕ)
        → Fine
            (exists u)
            (m.refcnt u)
            (0 + total (held u) others)
            (count u chain)
            (count u owned + due u k + total (mine u) others)
            (0 + total (pushes u) others)
            (0 + total (restores u) others))
    → All (Agrees m.next) others
    → Around exists m (after k owned) others
unfolding after
after-Around exists ends owned others m chain l f a = record {
  chain = chain;
  linked = l;
  fine = f;
  agrees = tt;
  others_agree = a;
}
after-Around exists again owned others m chain l f a = record {
  chain = chain;
  linked = l;
  fine = f;
  agrees = tt;
  others_agree = a;
}
after-Around exists (returns w) owned others m chain l f a = record {
  chain = chain;
  linked = l;
  fine = λ u.
      let e : count u owned + hit u w + total (mine u) others
          ≡ hit u w + count u owned + 0 + total (mine u) others =
        omega arith in
      subst
        (λ o.
          Fine (exists u) (m.refcnt u) (0 + total (held u) others) (count u chain) o
            (0 + total (pushes u) others) (0 + total (restores u) others))
        e (f u);
  agrees = tt;
  others_agree = a;
}

-- The store of `next` is seen by no other thread, since none holds or pushes the node.
write-Agrees :
    (next : ℕ → Option ℕ) (u : ℕ) (v : Option ℕ) (t : Thread)
    → held u t ≡ 0
    → pushes u t ≡ 0
    → Agrees next t
    → Agrees (write u v next) t
write-Agrees next u v t h p a =
    elim t.point
        as (λ q.
          held u (at q []) ≡ 0
          → pushes u (at q []) ≡ 0
          → Agrees next (at q [])
          → Agrees (write u v next) (at q [])) [
            | swapping w x k ↦ λ h p a. write-apart u x v next p ∙ a
            | counting x n ↦ λ h p a. a
            | swinging x w ↦ λ h p a. write-apart u x v next h ∙ a
            | restoring x k ↦ λ h p a. tt
            | pushing x k ↦ λ h p a. tt
            | linking w x k ↦ λ h p a. tt
            | releasing x k ↦ λ h p a. tt
            | outside ↦ λ h p a. tt
            | holding x ↦ λ h p a. tt
            | loading ↦ λ h p a. tt
            | seen x ↦ λ h p a. tt
          ]
      h p a

pub write-All :
    (next : ℕ → Option ℕ) (u : ℕ) (v : Option ℕ) (ts : List Thread)
    → total (held u) ts ≡ 0
    → total (pushes u) ts ≡ 0
    → All (Agrees next) ts
    → All (Agrees (write u v next)) ts
write-All next u v [] h p a = tt
write-All next u v (t ∷ ts) h p a = (
  write-Agrees next u v t (omega (arith, h)) (omega (arith, p)) a.0,
  write-All next u v ts (omega (arith, h)) (omega (arith, p)) a.1,
)

pub write-Linked :
    (next : ℕ → Option ℕ) (u : ℕ) (v top : Option ℕ) (chain : List ℕ)
    → count u chain ≡ 0
    → Linked next top chain
    → Linked (write u v next) top chain
write-Linked next u v top [] n l = l
write-Linked next u v top (x ∷ xs) n (e, l) = (
  e,
  subst (λ t. Linked (write u v next) t xs) (sym (write-apart u x v next (omega (arith, n))))
      (write-Linked next u v (next x) xs (omega (arith, n)) l),
)
