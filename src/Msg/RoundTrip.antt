-- ===== src/Msg/RoundTrip.antt =====
-- What `serialize` writes, and that the header constructor and `set_payload` read it back.
use salticidae.Base.{
  ℕ, ◌%◌, ◌^◌, ◌<◌, ◌≡◌, refl, sym, ap, ◌∙◌, true, false, List, [], ◌++◌, length, take, drop, arith,
  length-take, take-append_self, drop-append_self, subst, append_assoc, append-nil, ok, ==_iff,
}
use salticidae.Bytes.{take-All, le_bytes, length-le_bytes}
use salticidae.Platform.{Platform}
use salticidae.Stream.{DataStream, of_bytes, empty, put_data, put_int, move_bytes}
use salticidae.Stream.Reading.{get_int-append}
use salticidae.Msg.{
  Msg, header_size, set_payload, get_checksum, verify_checksum, of_stream, of_typed, serialize,
}

-- The header in the wire format.
abbrev pub header_bytes : Msg → List ℕ
header_bytes m =
    le_bytes 4 m.magic
    ++ (le_bytes 1 m.opcode ++ (le_bytes 4 m.length_field ++ le_bytes 4 m.checksum))

-- The fields fit their types.
pub record InRange (m : Msg) : Type 0 where
  pub magic_fits : m.magic < 256 ^ 4
  pub opcode_fits : m.opcode < 256 ^ 1
  pub length_fits : m.length_field < 256 ^ 4
  pub checksum_fits : m.checksum < 256 ^ 4

pub length-header_bytes : (m : Msg) → length (header_bytes m) ≡ header_size
unfolding le_bytes
length-header_bytes m = refl

-- The message as its header alone gives it.
abbrev pub header_of : Msg → Msg
header_of m = record m { payload = []; no_payload = true }

module _ (p : Platform) where
  -- `serialize` writes magic, opcode, length and checksum in little-endian order, on any host, and
  -- then the payload.
  pub serialize_lem : (m : Msg) → InRange m → serialize p m ≡ header_bytes m ++ m.payload
  unfolding serialize put_int put_data move_bytes empty
  serialize_lem m r = simp (
    p.store-htole 4 m.magic r.magic_fits,
    p.store_one m.opcode r.opcode_fits,
    p.store-htole 4 m.length_field r.length_fits,
    p.store-htole 4 m.checksum r.checksum_fits,
    append_assoc,
  )

  load-le_bytes_one : (x : ℕ) → x < 256 ^ 1 → p.load (le_bytes 1 x) ≡ x
  load-le_bytes_one x h = ap p.load (sym (p.store_one x h)) ∙ p.load-store 1 x h

  -- The header constructor reads the fields back from the 13 bytes that `serialize` wrote.
  pub of_stream-header_bytes :
      (m : Msg) → InRange m → of_stream p (of_bytes (header_bytes m)) ≡ ok (header_of m)
  unfolding of_stream of_bytes
  of_stream-header_bytes m r =
      let (s1, e1, v1, u1) =
        get_int-append p 4 (of_bytes (header_bytes m)) (le_bytes 4 m.magic)
          (le_bytes 1 m.opcode ++ (le_bytes 4 m.length_field ++ le_bytes 4 m.checksum))
          (omega arith) refl (length-le_bytes 4 m.magic) in
      let (s2, e2, v2, u2) =
        get_int-append p 1 s1 (le_bytes 1 m.opcode)
          (le_bytes 4 m.length_field ++ le_bytes 4 m.checksum) v1 u1 (length-le_bytes 1 m.opcode) in
      let (s3, e3, v3, u3) =
        get_int-append p 4 s2 (le_bytes 4 m.length_field) (le_bytes 4 m.checksum) v2 u2
          (length-le_bytes 4 m.length_field) in
      let (s4, e4, v4, u4) =
        get_int-append p 4 s3 (le_bytes 4 m.checksum) [] v3
          (u3 ∙ sym (append-nil (le_bytes 4 m.checksum))) (length-le_bytes 4 m.checksum) in
      rw e1 (
        rw e2 (
          rw e3 (
            rw e4 (
              simp (
                p.letoh-load 4 m.magic r.magic_fits,
                load-le_bytes_one m.opcode r.opcode_fits,
                p.letoh-load 4 m.length_field r.length_fits,
                p.letoh-load 4 m.checksum r.checksum_fits,
              )))))

  -- A message as the constructor from a typed message leaves it: what the network sends.
  pub record IsSendable (m : Msg) : Type 0 where
    pub in_range : InRange m
    pub measured : m.length_field ≡ length m.payload
    pub filled : m.no_payload ≡ false
    pub verified : verify_checksum p m ≡ ok true

  checksum_fits : (bytes : List ℕ) → p.load (take 4 (p.sha1 bytes)) < 256 ^ 4
  checksum_fits bytes =
      let n : length (take 4 (p.sha1 bytes)) ≡ 4 =
        omega (arith, length-take 4 (p.sha1 bytes), p.length-sha1 bytes) in
      subst (λ k. p.load (take 4 (p.sha1 bytes)) < 256 ^ k) n
        (p.load-lt (take 4 (p.sha1 bytes)) (take-All _ 4 (p.sha1 bytes) (p.sha1-IsByte bytes)))

  -- The constructor keeps the opcode, the magic and the whole buffer of the typed message's stream,
  -- and its result is ready to be sent: the length is right and the checksum verifies.
  pub of_typed-IsSendable :
      (opcode magic : ℕ) (s : DataStream)
      → opcode < 256
      → magic < 2 ^ 32
      → length s.buffer < 2 ^ 32
      → (m : Msg) × (of_typed p opcode s magic ≡ ok m)
        × IsSendable m
        × (m.opcode ≡ opcode)
        × (m.magic ≡ magic)
        × (m.payload ≡ s.buffer)
  unfolding of_typed get_checksum verify_checksum move_bytes
  of_typed-IsSendable opcode magic s ho hm hs = (
    record {
      magic = magic;
      opcode = opcode;
      length_field = length s.buffer % 2 ^ 32;
      checksum = p.load (take 4 (p.sha1 s.buffer));
      payload = s.buffer;
      no_payload = false;
    },
    refl,
    record {
      in_range = record {
        magic_fits = hm;
        opcode_fits = ho;
        length_fits = omega arith;
        checksum_fits = checksum_fits s.buffer;
      };
      measured = omega arith;
      filled = refl;
      verified = ap ok ((==_iff _ _).1 refl);
    },
    refl,
    refl,
    refl,
  )

  pub set_payload-header_of : (m : Msg) → IsSendable m → set_payload m.payload (header_of m) ≡ m
  unfolding set_payload
  set_payload-header_of m v =
      let fits : length m.payload % 2 ^ 32 ≡ m.length_field =
        omega (arith, v.measured, v.in_range.length_fits) in
      ground (arith, fits, v.filled)

  -- A sent message is received as it was: the constructor reads the first 13 bytes, `set_payload`
  -- takes the others, whose number is the length that the header tells.
  pub receive-serialize :
      (m : Msg)
      → IsSendable m
      → (h : Msg) × (of_stream p (of_bytes (take header_size (serialize p m))) ≡ ok h)
        × (h.length_field ≡ length (drop header_size (serialize p m)))
        × (set_payload (drop header_size (serialize p m)) h ≡ m)
  unfolding le_bytes
  receive-serialize m v = (
    header_of m,
    rw (serialize_lem m v.in_range, take-append_self header_size (header_bytes m) m.payload refl)
        (of_stream-header_bytes m v.in_range),
    rw (serialize_lem m v.in_range, drop-append_self header_size (header_bytes m) m.payload refl)
        v.measured,
    rw (serialize_lem m v.in_range, drop-append_self header_size (header_bytes m) m.payload refl)
        (set_payload-header_of m v),
  )
