-- ===== src/Peer/Sending/Attempts.antt =====
-- The message of a multicast on one connection: it is tried some number of times on the write buffer of that
-- connection, whatever happens on the others.
use salticidae.Base.{
  ℕ, zero, suc, ◌≤◌, ◌<◌, ◌≡◌, ◌⊎◌, inl, inr, refl, sym, ap, subst, ◌∙◌, Bool, true, false, ◌&&◌,
  ◌==◌, ==_iff, if◌then◌else◌, Bool-cases, Option-cases, List, [], ◌∷◌, ◌++◌, append_assoc,
  append-nil, replicate, Option, none, some, arith, false≢true, true≢false,
}
use salticidae.Platform.{Platform}
use salticidae.Msg.{Msg, serialize}
use salticidae.WriteBuffer.{Segments}
use salticidae.Queue.Refine.{Holds, IsFull}
use salticidae.Network.Outgoing
use salticidae.Network.Outgoing.{send_msg_lem}
use salticidae.Peer.Sending.{Buffers, written, write_to}
use salticidae.Peer.Sending.Reached.{mentions}

-- A buffer that refuses a message is as before.
abbrev kept : Option Segments → Segments → Segments
kept none s = s
kept (some r) s = r

-- One more, if the buffer takes it.
abbrev more : Option Segments → ℕ → ℕ
more none n = n
more (some r) n = suc n

module _ (p : Platform) (size max_send_buff_size : ℕ) (msg : Msg) where
  abbrev send : Segments → Option Segments
  send = Outgoing.send_msg p size max_send_buff_size msg

  -- What `k` attempts make of a buffer, and how many of them it takes.
  abbrev pub buffer_after : ℕ → Segments → Segments
  buffer_after zero s = s
  buffer_after (suc k) s = buffer_after k (kept (send s) s)

  abbrev pub count : ℕ → Segments → ℕ
  count zero s = 0
  count (suc k) s = more (send s) (count k (kept (send s) s))

  more-le : (o : Option Segments) (n : ℕ) → more o n ≤ suc n
  more-le none n = omega arith
  more-le (some r) n = omega arith

  pub count-le : (k : ℕ) (s : Segments) → count k s ≤ k
  count-le zero s = omega arith
  count-le (suc k) s =
      omega (arith, more-le (send s) (count k (kept (send s) s)), count-le k (kept (send s) s))

  stuck : (k : ℕ) (s : Segments) → send s ≡ none → (buffer_after k s ≡ s) × (count k s ≡ 0)
  stuck zero s e = (refl, refl)
  stuck (suc k) s e =
      subst (λ o. (buffer_after k (kept o s) ≡ s) × (more o (count k (kept o s)) ≡ 0)) (sym e)
        (stuck k s e)

  abbrev segment : List ℕ
  segment = serialize p msg

  -- The buffer takes the message each time, or it has a limit and is full in the end.
  abbrev pub Tries : ℕ → Segments → List (List ℕ) → ℕ → Segments → Type 0
  Tries k s vs n r =
      Holds (List ℕ) size r (vs ++ replicate n segment)
      × ((n ≡ k)
          ⊎ ((n < k) × ((max_send_buff_size == 0) ≡ false) × IsFull (List ℕ) size r.blocks r.free))

  Tries-taken :
      (k n : ℕ) (s t r : Segments) (vs : List (List ℕ))
      → Tries k t (vs ++ (segment ∷ [])) n r
      → Tries (suc k) s vs (suc n) r
  Tries-taken k n s t r vs (h, inl e) = (
    subst (Holds (List ℕ) size r) (append_assoc vs (segment ∷ []) (replicate n segment)) h,
    inl (ap suc e),
  )
  Tries-taken k n s t r vs (h, inr (l, limited, full)) = (
    subst (Holds (List ℕ) size r) (append_assoc vs (segment ∷ []) (replicate n segment)) h,
    inr (omega (arith, l), limited, full),
  )

  Tries-refused :
      (k : ℕ) (s : Segments) (n : ℕ) (r : Segments) (vs : List (List ℕ))
      → ((r ≡ s) × (n ≡ 0))
      → Holds (List ℕ) size s vs
      → (max_send_buff_size == 0) ≡ false
      → IsFull (List ℕ) size s.blocks s.free
      → Tries (suc k) s vs n r
  Tries-refused k s n r vs (e, z) h limited full =
      rw (e, z)
        (subst (Holds (List ℕ) size s) (sym (append-nil vs)) h, inr (omega arith, limited, full))

  pub buffer_after-Tries :
      (k : ℕ) (s : Segments) (vs : List (List ℕ))
      → 0 < size
      → Holds (List ℕ) size s vs
      → Tries k s vs (count k s) (buffer_after k s)
  buffer_after-Tries zero s vs pos h =
      (subst (Holds (List ℕ) size s) (sym (append-nil vs)) h, inl refl)
  buffer_after-Tries (suc k) s vs pos h =
      elim (send_msg_lem p size max_send_buff_size msg s vs pos h) [
        | inl (r, e, t) ↦
            subst
              (λ o. Tries (suc k) s vs (more o (count k (kept o s))) (buffer_after k (kept o s)))
              (sym e)
              (Tries-taken k (count k r) s r (buffer_after k r) vs
                (buffer_after-Tries k r (vs ++ (segment ∷ [])) pos t))
        | inr (e, limited, full) ↦
            Tries-refused k s (count (suc k) s) (buffer_after (suc k) s) vs (stuck (suc k) s e) h
              limited full
      ]

  -- One peer of the loop.
  write_to-other :
      (d c : ℕ) (bs : Buffers)
      → (write_to p size max_send_buff_size msg d bs).1 c
        ≡ (if c == d then kept (send (bs c)) (bs c) else bs c)
  unfolding write_to written
  write_to-other d c bs = elim (Bool-cases (c == d)) [
    | inl y ↦
        subst
          (λ x.
            (written p size max_send_buff_size msg x bs (send (bs x))).1 c
            ≡ (if c == x then kept (send (bs c)) (bs c) else bs c))
          ((==_iff c d).0 y)
          (elim (Option-cases (send (bs c))) [
            | inl e ↦ rw (e, (==_iff c c).1 refl) refl
            | inr (r, e) ↦ rw (e, (==_iff c c).1 refl) refl
          ])
    | inr n ↦ elim (Option-cases (send (bs d))) [
      | inl e ↦ rw (e, n) refl
      | inr (r, e) ↦ rw (e, n) refl
    ]
  ]

  abbrev wrote : ℕ → Buffers → Bool × Buffers
  wrote d bs = write_to p size max_send_buff_size msg d bs

  write_to-result :
      (d : ℕ) (bs : Buffers)
      → ((r : Segments) × ((wrote d bs).0 ≡ true) × (send (bs d) ≡ some r))
        ⊎ (((wrote d bs).0 ≡ false) × (send (bs d) ≡ none))
  unfolding write_to written
  write_to-result d bs = elim (Option-cases (send (bs d))) [
    | inl e ↦ inr (rw e refl, e)
    | inr (r, e) ↦ inl (r, rw e refl, e)
  ]

  -- The attempts on a connection are one for each mention of it.
  pub buffer_after-peer :
      (d c : ℕ) (cs : List ℕ) (bs : Buffers)
      → buffer_after (mentions c cs) ((wrote d bs).1 c) ≡ buffer_after (mentions c (d ∷ cs)) (bs c)
  buffer_after-peer d c cs bs =
      ap (buffer_after (mentions c cs)) (write_to-other d c bs)
      ∙ elim (Bool-cases (c == d)) [ inl y ↦ rw y refl | inr n ↦ rw n refl ]

  count-peer :
      (d c : ℕ) (cs : List ℕ) (bs : Buffers)
      → let n = count (mentions c cs) ((wrote d bs).1 c) in
        count (mentions c (d ∷ cs)) (bs c) ≡ (if c == d then more (send (bs c)) n else n)
  count-peer d c cs bs =
      rw (write_to-other d c bs)
        (elim (Bool-cases (c == d)) [ inl y ↦ rw y refl | inr n ↦ rw n refl ])

  count-same :
      (d : ℕ) (cs : List ℕ) (bs : Buffers)
      → count (mentions d (d ∷ cs)) (bs d)
        ≡ more (send (bs d)) (count (mentions d cs) ((wrote d bs).1 d))
  count-same d cs bs =
      count-peer d d cs bs
      ∙ ap
          (λ b.
            if b
            then more (send (bs d)) (count (mentions d cs) ((wrote d bs).1 d))
            else count (mentions d cs) ((wrote d bs).1 d))
          ((==_iff d d).1 refl)

  -- The result of the loop is true if it was before and each connection has taken the message each time; else it
  -- was false or some connection has refused one.
  abbrev pub Accounts : Bool → Bool → Buffers → List ℕ → Type 0
  Accounts succ b bs cs =
      ((b ≡ true) × (succ ≡ true) × ((c : ℕ) → count (mentions c cs) (bs c) ≡ mentions c cs))
      ⊎ ((b ≡ false)
          × ((succ ≡ false) ⊎ ((c : ℕ) × (count (mentions c cs) (bs c) < mentions c cs))))

  pub Accounts-none : (succ : Bool) (bs : Buffers) → Accounts succ succ bs []
  Accounts-none true bs = inl (refl, refl, λ c. refl)
  Accounts-none false bs = inr (refl, inl refl)

  all_taken :
      (d : ℕ) (cs : List ℕ) (bs : Buffers) (r : Segments)
      → send (bs d) ≡ some r
      → ((c : ℕ) → count (mentions c cs) ((wrote d bs).1 c) ≡ mentions c cs)
      → (c : ℕ) → count (mentions c (d ∷ cs)) (bs c) ≡ mentions c (d ∷ cs)
  all_taken d cs bs r e k c = count-peer d c cs bs ∙ elim (Bool-cases (c == d)) [
    | inl y ↦ rw (y, ap (λ x. send (bs x)) ((==_iff c d).0 y) ∙ e, k c) refl
    | inr n ↦ rw (n, k c) refl
  ]

  refused_here :
      (d : ℕ) (cs : List ℕ) (bs : Buffers)
      → send (bs d) ≡ none
      → count (mentions d (d ∷ cs)) (bs d) < mentions d (d ∷ cs)
  refused_here d cs bs e =
      rw (count-same d cs bs, e, (==_iff d d).1 refl)
        (omega (arith, count-le (mentions d cs) ((wrote d bs).1 d)))

  refused_later :
      (d c : ℕ) (cs : List ℕ) (bs : Buffers)
      → count (mentions c cs) ((wrote d bs).1 c) < mentions c cs
      → count (mentions c (d ∷ cs)) (bs c) < mentions c (d ∷ cs)
  refused_later d c cs bs l = rw (count-peer d c cs bs) (elim (Bool-cases (c == d)) [
    | inl y ↦
        rw y (omega (arith, l, more-le (send (bs c)) (count (mentions c cs) ((wrote d bs).1 c))))
    | inr n ↦ rw n l
  ])

  Accounts-by :
      (succ b1 b : Bool) (d : ℕ) (cs : List ℕ) (bs : Buffers)
      → ((r : Segments) × (b1 ≡ true) × (send (bs d) ≡ some r))
        ⊎ ((b1 ≡ false) × (send (bs d) ≡ none))
      → Accounts (succ && b1) b (wrote d bs).1 cs
      → Accounts succ b bs (d ∷ cs)
  Accounts-by false b1 b d cs bs o (inl (e, f, k)) = absurd (false≢true f)
  Accounts-by false b1 b d cs bs o (inr (e, k)) = inr (e, inl refl)
  Accounts-by true b1 b d cs bs (inl (r, t, s)) (inl (e, f, k)) =
      inl (e, refl, all_taken d cs bs r s k)
  Accounts-by true b1 b d cs bs (inr (t, s)) (inl (e, f, k)) = absurd (false≢true (sym t ∙ f))
  Accounts-by true b1 b d cs bs (inl (r, t, s)) (inr (e, inl f)) = absurd (true≢false (sym t ∙ f))
  Accounts-by true b1 b d cs bs (inr (t, s)) (inr (e, inl f)) =
      inr (e, inr (d, refused_here d cs bs s))
  Accounts-by true b1 b d cs bs o (inr (e, inr (c, l))) =
      inr (e, inr (c, refused_later d c cs bs l))

  pub Accounts-peer :
      (succ b : Bool) (d : ℕ) (cs : List ℕ) (bs : Buffers)
      → Accounts (succ && (wrote d bs).0) b (wrote d bs).1 cs
      → Accounts succ b bs (d ∷ cs)
  Accounts-peer succ b d cs bs k =
      Accounts-by succ (wrote d bs).0 b d cs bs (write_to-result d bs) k
