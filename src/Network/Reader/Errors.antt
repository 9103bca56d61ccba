-- ===== src/Network/Reader/Errors.antt =====
-- How `on_read` ends at a header that tells too long a payload, and at a wrong checksum.
use salticidae.Base.{
  ℕ, suc, ◌+◌, ◌≤◌, ◌<◌, ◌≡◌, refl, sym, ap, ◌∙◌, false, arith, List, ◌++◌, length, length-append,
  ltb-false, lt→ltb, take-append_self, drop-append_self, ok, oversized_msg,
}
use salticidae.Buffer
use salticidae.Buffer.{SegBuffer}
use salticidae.Buffer.Contents
use salticidae.Buffer.Contents.{IsValid, pop_lem, size_lem}
use salticidae.Platform.{Platform}
use salticidae.Msg.{Msg, header_size, get_length, set_payload, verify_checksum}
use salticidae.Msg.RoundTrip.{
  header_bytes, length-header_bytes, header_of, InRange, of_stream-header_bytes,
}
use salticidae.Network.Reader.{
  Inbox, header, Conn, End, dropped, thrown, Flow, next, stop, got_header, read_header, checked,
  read_payload, after_header, round_at, round, read_loop, on_read, read_unless, resumes_after,
}

module _ (p : Platform) (inbox : Inbox) (max_msg_size : ℕ) where
  open inbox use {Queue, enqueue}

  -- An awake connection between two messages, whose buffer begins with a whole header.
  pub record IsAtHeader (m : Msg) (more : List ℕ) (c : Conn) : Type 0 where
    pub valid : IsValid c.recv_buffer
    pub awake : c.msg_sleep ≡ false
    pub between : c.msg_state ≡ header
    pub in_range : InRange m
    pub holds : Contents.contents c.recv_buffer ≡ header_bytes m ++ more

  first_pop :
      (m : Msg) (more : List ℕ) (c : Conn)
      → IsAtHeader m more c
      → ((Buffer.pop header_size c.recv_buffer).0 ≡ header_bytes m)
        × IsValid (Buffer.pop header_size c.recv_buffer).1
        × (Contents.contents (Buffer.pop header_size c.recv_buffer).1 ≡ more)
        × (header_size ≤ Buffer.size c.recv_buffer)
  first_pop m more c h =
      let (out, w, left) = pop_lem header_size c.recv_buffer h.valid in
      (
        out
            ∙ rw h.holds
                (take-append_self header_size (header_bytes m) more (length-header_bytes m)),
        w,
        left
            ∙ rw h.holds
                (drop-append_self header_size (header_bytes m) more (length-header_bytes m)),
        omega (
          arith,
          size_lem c.recv_buffer h.valid,
          ap length h.holds,
          length-append (header_bytes m) more,
          length-header_bytes m,
        ),
      )

  loop-stop :
      (fuel : ℕ) (e : End) (c d : Conn) (q r : Queue)
      → round p inbox max_msg_size c q ≡ stop e (d, r)
      → read_loop p inbox max_msg_size (suc fuel) c q ≡ (e, d, r)
  unfolding read_loop
  loop-stop fuel e c d q r h = ap after h
    where
      after : Flow (Conn × Queue) → End × Conn × Queue
      after f = elim f [
        | next (c', q') ↦ read_loop p inbox max_msg_size fuel c' q'
        | stop e (c', q') ↦ (e, c', q')
      ]

  -- A first round that ends the loop ends `on_read`.
  on_read-stop :
      (e : End) (c d : Conn) (q r : Queue)
      → c.msg_sleep ≡ false
      → round p inbox max_msg_size c q ≡ stop e (d, r)
      → on_read p inbox max_msg_size c q
        ≡ record { conn = d; queue = r; end = e; resumes = resumes_after p inbox max_msg_size e d }
  unfolding on_read read_unless
  on_read-stop e c d q r awake h =
      let fuel : Buffer.size c.recv_buffer + 2 ≡ suc (suc (Buffer.size c.recv_buffer)) =
        omega arith in
      ap (λ b. read_unless p inbox max_msg_size b c q) awake
      ∙ rw (fuel, loop-stop (suc (Buffer.size c.recv_buffer)) e c d q r h) refl

  -- At a header with a length over the limit `on_read` throws: nothing is queued, and the connection
  -- does not go on to read.
  pub on_read_oversized :
      (m : Msg) (more : List ℕ) (c : Conn) (q : Queue)
      → IsAtHeader m more c
      → max_msg_size < m.length_field
      → ((on_read p inbox max_msg_size c q).end ≡ thrown oversized_msg)
        × ((on_read p inbox max_msg_size c q).queue ≡ q)
        × ((on_read p inbox max_msg_size c q).resumes ≡ false)
        × (Contents.contents (on_read p inbox max_msg_size c q).conn.recv_buffer ≡ more)
  unfolding round round_at after_header read_header got_header get_length resumes_after
  on_read_oversized m more c q h big =
      let (out, w, left, whole) = first_pop m more c h in
      let b = (Buffer.pop header_size c.recv_buffer).1 in
      let first : round p inbox max_msg_size c q
          ≡ stop (thrown oversized_msg) (record c { recv_buffer = b; msg = header_of m }, q) =
        ap (λ s. round_at p inbox max_msg_size s c q) h.between
        ∙ rw (ltb-false _ _ whole, out, of_stream-header_bytes p m h.in_range, lt→ltb _ _ big)
            refl in
      rw
        (on_read-stop (thrown oversized_msg) c (record c { recv_buffer = b; msg = header_of m }) q q
          h.awake first)
        (refl, refl, refl, left)

  -- A message whose checksum is wrong is taken off the buffer and not queued, and the loop ends; what
  -- follows stays in the buffer, also when it begins with a whole message.
  pub on_read_corrupt :
      (m : Msg) (more : List ℕ) (c : Conn) (q : Queue)
      → IsAtHeader m (m.payload ++ more) c
      → m.length_field ≡ length m.payload
      → m.length_field ≤ max_msg_size
      → verify_checksum p (set_payload m.payload (header_of m)) ≡ ok false
      → ((on_read p inbox max_msg_size c q).end ≡ dropped)
        × ((on_read p inbox max_msg_size c q).queue ≡ q)
        × ((on_read p inbox max_msg_size c q).conn.msg_state ≡ header)
        × (Contents.contents (on_read p inbox max_msg_size c q).conn.recv_buffer ≡ more)
  unfolding round round_at after_header read_header got_header get_length read_payload checked
  on_read_corrupt m more c q h measured fits wrong =
      let b = (Buffer.pop header_size c.recv_buffer).1 in
      let (out, w, left, whole) = first_pop m (m.payload ++ more) c h in
      let (out2, w2, left2) = pop_lem m.length_field b w in
      let body : (Buffer.pop m.length_field b).0 ≡ m.payload =
        out2 ∙ rw left (take-append_self m.length_field m.payload more (sym measured)) in
      let rest : Contents.contents (Buffer.pop m.length_field b).1 ≡ more =
        left2 ∙ rw left (drop-append_self m.length_field m.payload more (sym measured)) in
      let room : m.length_field ≤ Buffer.size b =
        omega (arith, size_lem b w, ap length left, length-append m.payload more, measured) in
      let end_of : Conn = record c {
        recv_buffer = (Buffer.pop m.length_field b).1;
        msg = set_payload m.payload (header_of m);
        msg_state = header;
      } in
      let first : round p inbox max_msg_size c q ≡ stop dropped (end_of, q) =
        ap (λ s. round_at p inbox max_msg_size s c q) h.between
        ∙ rw
            (
              ltb-false _ _ whole,
              out,
              of_stream-header_bytes p m h.in_range,
              ltb-false _ _ fits,
              ltb-false _ _ room,
              body,
              wrong,
            )
            refl in
      rw (on_read-stop dropped c end_of q q h.awake first) (refl, refl, refl, rest)
