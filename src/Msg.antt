-- ===== src/Msg.antt =====
-- The class MsgBase of include/salticidae/msg.h, for the opcode type uint8_t that type.h and
-- network.h use, built with checksums and checks on: a header of 13 bytes and a payload.
pub mod RoundTrip
use salticidae.Base.{
  ℕ, ◌+◌, ◌%◌, ◌^◌, Bool, true, false, List, [], length, take, ◌==◌, if◌then◌else◌, Result, ok, err,
  payload_unavailable, ◌>>=◌,
}
use salticidae.Platform.{Platform}
use salticidae.Stream.{DataStream, empty, of_bytes, put_data, put_int, get_int, move_bytes}

pub record Msg : Type 0 where
  pub magic : ℕ
  pub opcode : ℕ
  pub length_field : ℕ
  pub checksum : ℕ
  pub payload : List ℕ
  pub no_payload : Bool

-- The sizes of magic, opcode, length and checksum.
abbrev pub header_size : ℕ
header_size = 4 + 1 + 4 + 4

unfoldable pub get_length : Msg → ℕ
get_length m = m.length_field

pub set_magic : ℕ → Msg → Msg
set_magic x m = record m { magic = x }

pub set_opcode : ℕ → Msg → Msg
set_opcode x m = record m { opcode = x }

-- `length` is a uint32_t.
unfoldable pub set_payload : List ℕ → Msg → Msg
set_payload bytes m = record m {
  payload = bytes;
  no_payload = false;
  length_field = length bytes % 2 ^ 32;
}

-- The payload is moved out, once.
pub get_payload : Msg → Result (DataStream × Msg)
get_payload m =
    if m.no_payload
    then err payload_unavailable
    else ok (of_bytes m.payload, record m { no_payload = true; payload = [] })

module _ (p : Platform) where
  -- The first four bytes of the digest of the payload.
  unfoldable pub get_checksum : Msg → Result ℕ
  get_checksum m =
      if m.no_payload then err payload_unavailable else ok (p.load (take 4 (p.sha1 m.payload)))

  pub set_checksum : Msg → Result Msg
  unfolding get_checksum
  set_checksum m = do sum ← get_checksum m; ok (record m { checksum = sum })

  unfoldable pub verify_checksum : Msg → Result Bool
  unfolding get_checksum
  verify_checksum m = do sum ← get_checksum m; ok (m.checksum == sum)

  -- The constructor from a typed message, by its opcode and its serialized stream. `length` and
  -- `checksum` have no value before they are set; the zeros stand for that.
  pub of_typed : ℕ → DataStream → ℕ → Result Msg
  unfolding set_checksum set_payload set_opcode
  of_typed opcode serialized magic =
      set_checksum (set_payload (move_bytes serialized) (set_opcode opcode blank))
    where
      blank : Msg
      blank = record {
        magic = magic;
        opcode = 0;
        length_field = 0;
        checksum = 0;
        payload = [];
        no_payload = true;
      }

  -- The constructor from a stream reads a header. It tells the width 4 of an integer from its type.
  unfoldable pub of_stream : DataStream → Result Msg
  of_stream s = do
    (magic, s1) ← get_int p 4 s
    (opcode, s2) ← get_int p 1 s1
    (len, s3) ← get_int p 4 s2
    (checksum, s4) ← get_int p 4 s3
    ok (record {
      magic = p.letoh 4 magic;
      opcode = opcode;
      length_field = p.letoh 4 len;
      checksum = p.letoh 4 checksum;
      payload = [];
      no_payload = true;
    })

  unfoldable pub serialize : Msg → List ℕ
  serialize m = move_bytes (
      put_data
        (put_int p 4 (p.htole 4 m.checksum) (
          put_int p 4 (p.htole 4 m.length_field)
            (put_int p 1 m.opcode (put_int p 4 (p.htole 4 m.magic) empty))))
        m.payload)
