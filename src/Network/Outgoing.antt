-- ===== src/Network/Outgoing.antt =====
-- The sending of messages by MsgNetwork of include/salticidae/network.h, down to `Conn::write` of
-- include/salticidae/conn.h.
use salticidae.Base.{
  ℕ, ◌<◌, ◌≡◌, ◌⊎◌, inl, inr, ap, false, List, [], ◌∷◌, ◌++◌, length, Option, none, some, arith,
  length-append, ◌==◌, Exception, conn_not_ready,
}
use salticidae.Bytes.{All, All-append}
use salticidae.Platform.{Platform}
use salticidae.Stream.{put_data, put_int, move_bytes, empty}
use salticidae.Msg.{Msg, serialize}
use salticidae.WriteBuffer.{Segments, push, push_lem}
use salticidae.Queue.Refine.{Holds, IsFull}

module _ (p : Platform) (size max_send_buff_size : ℕ) where
  -- `Conn::write`. Without a limit the queue allocates.
  pub write : List ℕ → Segments → Option Segments
  write bytes s = push size bytes (max_send_buff_size == 0) s

  -- `_send_msg`; `none` stands for the result false.
  unfoldable pub send_msg : Msg → Segments → Option Segments
  unfolding write
  send_msg m s = write (serialize p m) s

  delivered : Option Segments → Segments → Segments × Option Exception
  delivered none s = (s, some conn_not_ready)
  delivered (some r) s = (r, none)

  -- The call of `_send_msg_deferred`: the buffer, and the error that the user's error callback gets.
  pub send_msg_deferred : Msg → Segments → Segments × Option Exception
  unfolding delivered
  send_msg_deferred m s = delivered (send_msg m s) s

  abbrev pub IsFilled : List ℕ → Type 0
  IsFilled seg = 0 < length seg

  pub serialize-IsFilled : (m : Msg) → IsFilled (serialize p m)
  unfolding serialize put_data put_int move_bytes empty
  serialize-IsFilled m = omega (
    arith,
    p.length-store 4 (p.htole 4 m.magic),
    length-append
        (((p.store 4 (p.htole 4 m.magic) ++ p.store 1 m.opcode)
            ++ p.store 4 (p.htole 4 m.length_field))
          ++ p.store 4 (p.htole 4 m.checksum))
        m.payload,
    length-append
        ((p.store 4 (p.htole 4 m.magic) ++ p.store 1 m.opcode)
          ++ p.store 4 (p.htole 4 m.length_field))
        (p.store 4 (p.htole 4 m.checksum)),
    length-append (p.store 4 (p.htole 4 m.magic) ++ p.store 1 m.opcode)
        (p.store 4 (p.htole 4 m.length_field)),
    length-append (p.store 4 (p.htole 4 m.magic)) (p.store 1 m.opcode),
  )

  pub send_msg_lem :
      (m : Msg) (s : Segments) (vs : List (List ℕ))
      → 0 < size
      → Holds (List ℕ) size s vs
      → ((r : Segments) × (send_msg m s ≡ some r)
          × Holds (List ℕ) size r (vs ++ (serialize p m ∷ [])))
        ⊎ ((send_msg m s ≡ none)
            × ((max_send_buff_size == 0) ≡ false)
            × IsFull (List ℕ) size s.blocks s.free)
  unfolding send_msg write
  send_msg_lem m s vs pos h = push_lem size (serialize p m) (max_send_buff_size == 0) s vs pos h

  -- A deferred message is put in the write buffer as one segment behind those that wait, and no segment is
  -- empty if none was; or the buffer is as before and the user's callback gets CONN_NOT_READY, which
  -- happens only with a limit and a full buffer.
  pub send_msg_deferred_lem :
      (m : Msg) (s : Segments) (vs : List (List ℕ))
      → 0 < size
      → Holds (List ℕ) size s vs
      → All IsFilled vs
      → ((r : Segments) × (send_msg_deferred m s ≡ (r, none))
          × Holds (List ℕ) size r (vs ++ (serialize p m ∷ []))
          × All IsFilled (vs ++ (serialize p m ∷ [])))
        ⊎ ((send_msg_deferred m s ≡ (s, some conn_not_ready))
            × ((max_send_buff_size == 0) ≡ false)
            × IsFull (List ℕ) size s.blocks s.free)
  unfolding send_msg_deferred delivered
  send_msg_deferred_lem m s vs pos h filled = elim (send_msg_lem m s vs pos h) [
    | inl (r, e, k) ↦ inl (
      r,
      ap (λ o. delivered o s) e,
      k,
      All-append IsFilled vs (serialize p m ∷ []) filled (serialize-IsFilled m, tt),
    )
    | inr (e, limited, full) ↦ inr (ap (λ o. delivered o s) e, limited, full)
  ]
