-- ===== src/Network/Reader/Delivery/Lengths.antt =====
-- Bounds on what is left to deliver.
use mathlib.Core.List.{map-append}
use salticidae.Base.{
  ℕ, ◌+◌, ◌≤◌, ◌≡◌, refl, sym, ap, ◌∙◌, arith, List, [], ◌∷◌, ◌++◌, map, length, length-append,
  append_assoc,
}
use salticidae.Bytes.{All}
use salticidae.Buffer.Contents
use salticidae.Buffer.Contents.{IsValid, push_lem, size_lem, empty-IsValid, contents-empty}
use salticidae.Platform.{Platform}
use salticidae.Msg.{Msg, serialize}
use salticidae.Msg.RoundTrip.{serialize_lem, header_bytes, length-header_bytes}
use salticidae.Network.Reader.{Inbox, MsgState, header, payload, Conn}
use salticidae.Network.Reader.Rounds.{wire, Fits, Holds, tag, Short}

module _ (p : Platform) (inbox : Inbox) (max_msg_size : ℕ) where
  pub wire-append :
      (ms ns : List Msg)
      → wire p inbox max_msg_size (ms ++ ns)
        ≡ wire p inbox max_msg_size ms ++ wire p inbox max_msg_size ns
  wire-append [] ns = refl
  wire-append (m ∷ ms) ns = simp (wire-append ms ns, append_assoc)

  pub untag :
      (id : ℕ) (ms : List Msg)
      → map (λ (x : Msg × ℕ). x.0) (map (tag p inbox max_msg_size id) ms) ≡ ms
  untag id [] = refl
  untag id (m ∷ ms) = ap (◌∷◌ m) (untag id ms)

  -- What is left to deliver is no longer than what was sent.
  pub wire_suffix :
      (id : ℕ) (front : List (Msg × ℕ)) (rest ms : List Msg)
      → front ++ map (tag p inbox max_msg_size id) rest ≡ map (tag p inbox max_msg_size id) ms
      → length (wire p inbox max_msg_size rest) ≤ length (wire p inbox max_msg_size ms)
  wire_suffix id front rest ms e =
      let firsts : List (Msg × ℕ) → List Msg = map (λ x. x.0) in
      let split : firsts front ++ rest ≡ ms =
        ap (λ t. firsts front ++ t) (sym (untag id rest))
        ∙ sym (map-append _ front _)
        ∙ ap firsts e
        ∙ untag id ms in
      omega (
        arith,
        ap (λ t. length (wire p inbox max_msg_size t)) split,
        ap length (wire-append (firsts front) rest),
        length-append (wire p inbox max_msg_size (firsts front)) (wire p inbox max_msg_size rest),
      )

  -- The bytes in the buffer and those to come are among the bytes left to deliver.
  pub Holds-length :
      (future : List ℕ) (s : MsgState) (c : Conn) (rest : List Msg)
      → All (Fits p inbox max_msg_size) rest
      → Holds p inbox max_msg_size future s c.recv_buffer c.msg rest
      → length (Contents.contents c.recv_buffer) + length future
        ≤ length (wire p inbox max_msg_size rest)
  Holds-length future header c rest f h =
      omega (arith, ap length h, length-append (Contents.contents c.recv_buffer) future)
  Holds-length future payload c [] f h = absurd h
  Holds-length future payload c (m ∷ rest) f h = omega (
    arith,
    ap length h.1,
    length-append (Contents.contents c.recv_buffer) future,
    length-append m.payload (wire p inbox max_msg_size rest),
    length-append (serialize p m) (wire p inbox max_msg_size rest),
    ap length (serialize_lem p m f.0.0.in_range),
    length-append (header_bytes m) m.payload,
  )

  -- With no bytes to come and no whole message in the buffer there is nothing left to deliver.
  pub Short-Holds :
      (s : MsgState) (c : Conn) (rest : List Msg)
      → IsValid c.recv_buffer
      → All (Fits p inbox max_msg_size) rest
      → Short p inbox max_msg_size s c
      → Holds p inbox max_msg_size [] s c.recv_buffer c.msg rest
      → rest ≡ []
  Short-Holds header c [] v f k h = refl
  Short-Holds header c (m ∷ rest) v f k h = absurd (
      omega (
        arith,
        k,
        ap length h,
        size_lem c.recv_buffer v,
        length-append (Contents.contents c.recv_buffer) [],
        length-append (serialize p m) (wire p inbox max_msg_size rest),
        ap length (serialize_lem p m f.0.0.in_range),
        length-append (header_bytes m) m.payload,
        length-header_bytes m,
      ))
  Short-Holds payload c [] v f k h = refl
  Short-Holds payload c (m ∷ rest) v f k h = absurd (
      omega (
        arith,
        k,
        ap (λ (x : Msg). x.length_field) h.0,
        f.0.0.measured,
        ap length h.1,
        size_lem c.recv_buffer v,
        length-append (Contents.contents c.recv_buffer) [],
        length-append m.payload (wire p inbox max_msg_size rest),
      ))
