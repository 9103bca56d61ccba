-- ===== src/NetAddr.antt =====
-- The struct NetAddr of include/salticidae/netaddr.h. Both fields hold the number that the bytes in
-- network order make on the host.
use salticidae.Base.{
  ℕ, Bool, ◌&&◌, ◌==◌, ◌≡◌, Result, ok, ◌>>=◌, List, ◌++◌, ◌<◌, ◌^◌, ◌∙◌, append_assoc,
}
use salticidae.Platform.{Platform}
use salticidae.Stream.{DataStream, put_int, get_int}
use salticidae.Stream.Reading.{IsValid, unread, get_int-append, unread-put_int}

pub record NetAddr : Type 0 where
  pub ip : ℕ
  pub port : ℕ

abbrev pub null_addr : NetAddr
null_addr = record { ip = 0; port = 0 }

-- `operator==`; `operator!=` is its negation.
abbrev pub is_eq : NetAddr → NetAddr → Bool
is_eq a b = (a.ip == b.ip) && (a.port == b.port)

abbrev pub is_null : NetAddr → Bool
is_null a = (a.ip == 0) && (a.port == 0)

module _ (p : Platform) where
  pub serialize : NetAddr → DataStream → DataStream
  serialize a s = put_int p 2 a.port (put_int p 4 a.ip s)

  pub unserialize : DataStream → Result (NetAddr × DataStream)
  unserialize s = do
    (ip, s1) ← get_int p 4 s
    (port, s2) ← get_int p 2 s1
    ok (record { ip = ip; port = port }, s2)

  pub unread-serialize :
      (a : NetAddr) (s : DataStream)
      → IsValid s
      → IsValid (serialize a s)
        × (unread (serialize a s) ≡ unread s ++ (p.store 4 a.ip ++ p.store 2 a.port))
  unfolding serialize
  unread-serialize a s v =
      let (v1, u1) = unread-put_int p 4 a.ip s v in
      let (v2, u2) = unread-put_int p 2 a.port (put_int p 4 a.ip s) v1 in
      (v2, u2 ∙ rw u1 (append_assoc (unread s) (p.store 4 a.ip) (p.store 2 a.port)))

  -- The address whose bytes come next is read, and what follows it is left.
  pub unserialize_lem :
      (a : NetAddr) (s : DataStream) (rest : List ℕ)
      → IsValid s
      → unread s ≡ p.store 4 a.ip ++ (p.store 2 a.port ++ rest)
      → a.ip < 256 ^ 4
      → a.port < 256 ^ 2
      → (t : DataStream) × (unserialize s ≡ ok (a, t)) × IsValid t × (unread t ≡ rest)
  unfolding unserialize
  unserialize_lem a s rest v e hi hp =
      let (s1, e1, v1, u1) =
        get_int-append p 4 s (p.store 4 a.ip) (p.store 2 a.port ++ rest) v e
          (p.length-store 4 a.ip) in
      let (s2, e2, v2, u2) =
        get_int-append p 2 s1 (p.store 2 a.port) rest v1 u1 (p.length-store 2 a.port) in
      (s2, rw e1 (rw e2 (simp (p.load-store 4 a.ip hi, p.load-store 2 a.port hp))), v2, u2)
