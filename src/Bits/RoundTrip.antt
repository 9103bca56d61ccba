-- ===== src/Bits/RoundTrip.antt =====
-- Bits are written to a stream and read back.
use salticidae.Base.{ℕ, ◌<◌, ◌^◌, ◌≡◌, refl, sym, ap, ◌∙◌, List, [], ◌++◌, append_assoc, arith, ok}
use salticidae.Bytes.{le_bytes, length-le_bytes}
use salticidae.Platform.{Platform}
use salticidae.Stream.{DataStream, put_int}
use salticidae.Stream.Reading.{unread, unread-put_int, get_int-append}
use salticidae.Stream.Reading
use salticidae.Blob.{get_words}
use salticidae.Blob.RoundTrip.{bytes_of, put_words_lem, get_words_lem}
use salticidae.Bits.{Bits, n_data, serialize, unserialize}
use salticidae.Bits.Access.{IsValid}

-- Valid bits that have been written to an empty stream are read back as themselves from a stream where what
-- was written comes next, on any host, and what follows it is left.
pub unserialize-serialize :
    (p : Platform) (b : Bits) (s r : DataStream) (rest : List ℕ)
    → IsValid b
    → Reading.IsValid s
    → Reading.IsValid r
    → unread s ≡ []
    → unread r ≡ unread (serialize p b s) ++ rest
    → (t : DataStream) × (unserialize p r ≡ ok (b, t)) × Reading.IsValid t × (unread t ≡ rest)
unfolding serialize unserialize
unserialize-serialize p b s r rest v vs vr none_left e =
    let small : b.nbits < 256 ^ 4 = omega (arith, v.no_wrap) in
    let (v1, u1) = unread-put_int p 4 (p.htole 4 b.nbits) s vs in
    let (v2, u2) = put_words_lem p b.words (put_int p 4 (p.htole 4 b.nbits) s) v1 v.fit in
    let written : unread r ≡ le_bytes 4 b.nbits ++ (bytes_of b.words ++ rest) =
      e
      ∙ ap (λ l. l ++ rest)
          (u2
            ∙ ap (λ l. l ++ bytes_of b.words)
                (u1
                  ∙ ap (λ l. l ++ p.store 4 (p.htole 4 b.nbits)) none_left
                  ∙ p.store-htole 4 b.nbits small))
      ∙ append_assoc (le_bytes 4 b.nbits) (bytes_of b.words) rest in
    let (r1, e1, w1, left1) =
      get_int-append p 4 r (le_bytes 4 b.nbits) (bytes_of b.words ++ rest) vr written
        (length-le_bytes 4 b.nbits) in
    let (t, e2, w2, left2) = get_words_lem p b.words r1 rest w1 v.fit left1 in
    let same : p.letoh 4 (p.load (le_bytes 4 b.nbits)) ≡ b.nbits = p.letoh-load 4 b.nbits small in
    let got : get_words p (n_data b.nbits) r1 ≡ ok (b.words, t) =
      ap (λ n. get_words p n r1) (sym v.counted) ∙ e2 in
    (t, rw e1 (rw same (rw got refl)), w2, left2)
