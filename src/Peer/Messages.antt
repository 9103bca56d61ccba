-- ===== src/Peer/Messages.antt =====
-- The serialization of MsgPing and MsgPong in include/salticidae/network.h.
use salticidae.Base.{
  ◌≡◌, ◌<◌, ◌^◌, ◌==◌, sym, ◌∙◌, Option, none, some, [], ◌++◌, Result, ok, ◌>>=◌, if◌then◌else◌,
  append_assoc, append-nil, arith,
}
use salticidae.Platform.{Platform}
use salticidae.Stream.{DataStream, empty, put_int, get_int}
use salticidae.Stream.Reading.{IsValid, unread, unread-put_int, get_int-append}
use salticidae.NetAddr.{serialize, unserialize, unread-serialize, unserialize_lem}
use salticidae.Peer.{Ping}

module _ (p : Platform) where
  -- The constructors of MsgPing, and of MsgPong by those: the stream `serialized`.
  pub of_ping : Option Ping → DataStream
  of_ping none = put_int p 1 0 empty
  of_ping (some m) =
      put_int p 4 (p.htole 4 m.nonce) (serialize p m.claimed_addr (put_int p 1 1 empty))

  handshake_of : DataStream → Result (Option Ping)
  handshake_of s = do
    (addr, s1) ← unserialize p s
    (nonce, s2) ← get_int p 4 s1
    ok (some (record { claimed_addr = addr; nonce = p.letoh 4 nonce }))

  -- The constructor from a stream. Without the flag it leaves the address null and the nonce with
  -- no value, which is `none` here.
  pub to_ping : DataStream → Result (Option Ping)
  unfolding handshake_of
  to_ping s = do
    (flag, s1) ← get_int p 1 s
    let handshake = handshake_of s1
    if flag == 0 then ok none else handshake

  -- The fields of a handshake are of the widths 32, 16 and 32.
  abbrev pub FitsWire : Option Ping → Type 0
  FitsWire none = Unit {0}
  FitsWire (some m) =
      (m.claimed_addr.ip < 256 ^ 4) × (m.claimed_addr.port < 256 ^ 2) × (m.nonce < 256 ^ 4)

  handshake_of_lem :
      (m : Ping) (s : DataStream)
      → IsValid s
      → FitsWire (some m)
      → unread s
        ≡ p.store 4 m.claimed_addr.ip
          ++ (p.store 2 m.claimed_addr.port ++ (p.store 4 (p.htole 4 m.nonce) ++ []))
      → handshake_of s ≡ ok (some m)
  unfolding handshake_of
  handshake_of_lem m s v (ip, port, nonce) e =
      let (s1, e1, v1, u1) = unserialize_lem p m.claimed_addr s _ v e ip port in
      let (s2, e2, v2, u2) =
        get_int-append p 4 s1 (p.store 4 (p.htole 4 m.nonce)) [] v1 u1 (p.length-store 4 _) in
      rw e1 (rw e2 (simp (p.store-htole 4 m.nonce nonce, p.letoh-load 4 m.nonce nonce)))

  -- A handshake is the flag, the address and the nonce.
  written :
      (m : Ping)
      → IsValid (of_ping (some m))
        × (unread (of_ping (some m))
            ≡ p.store 1 1
              ++ (p.store 4 m.claimed_addr.ip
                  ++ (p.store 2 m.claimed_addr.port ++ (p.store 4 (p.htole 4 m.nonce) ++ []))))
  unfolding of_ping empty
  written m =
      let (v1, u1) = unread-put_int p 1 1 empty (omega arith) in
      let (v2, u2) = unread-serialize p m.claimed_addr (put_int p 1 1 empty) v1 in
      let (v3, u3) =
        unread-put_int p 4 (p.htole 4 m.nonce) (serialize p m.claimed_addr (put_int p 1 1 empty))
          v2 in
      (v3, simp (u3, u2, u1, append_assoc, append-nil))

  -- A ping or pong is read back as it was written, on any host.
  pub to_ping-of_ping : (m : Option Ping) → FitsWire m → to_ping (of_ping m) ≡ ok m
  unfolding to_ping of_ping empty
  to_ping-of_ping none h =
      let (v, u) = unread-put_int p 1 0 empty (omega arith) in
      let (s, e, _, _) =
        get_int-append p 1 (put_int p 1 0 empty) (p.store 1 0) [] v (u ∙ sym (append-nil _))
          (p.length-store 1 0) in
      rw e (simp (p.load-store 1 0 (omega arith)))
  to_ping-of_ping (some m) h =
      let (v, u) = written m in
      let (s1, e1, w1, r1) =
        get_int-append p 1 (of_ping (some m)) (p.store 1 1) _ v u (p.length-store 1 1) in
      rw e1 (simp (p.load-store 1 1 (omega arith), handshake_of_lem m s1 w1 h r1))
