-- ===== src/Tests/Errors.antt =====
-- Bytes that the reader rejects.
use salticidae.Base.{◌≡◌, refl, List, [], ◌∷◌, ◌++◌, false, arith, ℕ, oversized_msg}
use salticidae.Bytes.{le_bytes, from_le}
use salticidae.Buffer.Contents
use salticidae.Msg.{Msg, set_payload, verify_checksum, get_checksum}
use salticidae.Msg.RoundTrip.{header_bytes}
use salticidae.Network.Reader.{Conn, header, dropped, thrown, on_read}
use salticidae.Network.Reader.Errors.{IsAtHeader, on_read_oversized, on_read_corrupt}
use salticidae.Tests.Platforms.{little}
use salticidae.Tests.Messages.{hello, one_place, blank_conn}

-- The checksum of `hello` is 3.
abbrev corrupt : Msg
corrupt = record hello { checksum = 4 }

-- The bytes of the message `m` in one segment.
abbrev received : Msg → List ℕ → Conn
received m bytes = record blank_conn {
  recv_buffer = record {
    buffer = record { bytes = header_bytes m ++ bytes; offset = 0 } ∷ [];
    total = 15;
  };
}

received-IsAtHeader : IsAtHeader little one_place 1 hello (1 ∷ 2 ∷ []) (received hello (1 ∷ 2 ∷ []))
unfolding le_bytes
received-IsAtHeader = record {
  valid = record { in_bounds = omega arith; counted = refl; small = omega arith };
  awake = refl;
  between = refl;
  in_range = record {
    magic_fits = omega arith;
    opcode_fits = omega arith;
    length_fits = omega arith;
    checksum_fits = omega arith;
  };
  holds = refl;
}

corrupt-IsAtHeader :
    IsAtHeader little one_place 100 corrupt (1 ∷ 2 ∷ []) (received corrupt (1 ∷ 2 ∷ []))
unfolding le_bytes
corrupt-IsAtHeader = record {
  valid = record { in_bounds = omega arith; counted = refl; small = omega arith };
  awake = refl;
  between = refl;
  in_range = record {
    magic_fits = omega arith;
    opcode_fits = omega arith;
    length_fits = omega arith;
    checksum_fits = omega arith;
  };
  holds = refl;
}

on_read_oversized_example :
    ((on_read little one_place 1 (received hello (1 ∷ 2 ∷ [])) []).end ≡ thrown oversized_msg)
    × ((on_read little one_place 1 (received hello (1 ∷ 2 ∷ [])) []).queue ≡ [])
    × ((on_read little one_place 1 (received hello (1 ∷ 2 ∷ [])) []).resumes ≡ false)
    × (Contents.contents
          (on_read little one_place 1 (received hello (1 ∷ 2 ∷ [])) []).conn.recv_buffer
        ≡ 1 ∷ 2 ∷ [])
on_read_oversized_example =
    on_read_oversized little one_place 1 hello (1 ∷ 2 ∷ []) (received hello (1 ∷ 2 ∷ [])) []
      received-IsAtHeader (omega arith)

on_read_corrupt_example :
    ((on_read little one_place 100 (received corrupt (1 ∷ 2 ∷ [])) []).end ≡ dropped)
    × ((on_read little one_place 100 (received corrupt (1 ∷ 2 ∷ [])) []).queue ≡ [])
    × ((on_read little one_place 100 (received corrupt (1 ∷ 2 ∷ [])) []).conn.msg_state ≡ header)
    × (Contents.contents
          (on_read little one_place 100 (received corrupt (1 ∷ 2 ∷ [])) []).conn.recv_buffer
        ≡ [])
unfolding set_payload verify_checksum get_checksum from_le
on_read_corrupt_example =
    on_read_corrupt little one_place 100 corrupt [] (received corrupt (1 ∷ 2 ∷ [])) []
      corrupt-IsAtHeader refl (omega arith) refl
