-- ===== src/Codecs/Fields.antt =====
-- A tuple is read as it was written.
use mathlib.Core.List.{append-nil, append_assoc}
use edgedb_python.Prelude.Int.{pos}
use edgedb_python.Prelude.{
  ℕ, suc, ◌+◌, ◌^◌, ◌≤◌, ◌<◌, ◌≡◌, refl, ap, sym, ◌∙◌, true, false, ◌==◌, nat_eq, List, [], ◌∷◌,
  ◌++◌, Option, length, length-append, arith,
}
use edgedb_python.Errors.Raise.{ok}
use edgedb_python.Codecs.{Bytes, Wire, IsWire, Codec, uint32, IsSent, IsItemSent}
use edgedb_python.Codecs.Items.{read_int32, sent_item}
use edgedb_python.Codecs.Sent.{small}
use edgedb_python.Codecs.Tuple.{
  all_arguments, argument_error, Words, encode_fields, encode_record, encode, decode_fields, decode,
  tuple_codec,
}

-- There is one codec for each element, which writes it and reads it back.
abbrev pub AreSent : {V : Type 0} → Wire → List (Codec V) → List (Option V) → Type 0
AreSent w [] [] = Unit
AreSent w (codec ∷ codecs) (item ∷ items) = IsItemSent w codec item × AreSent w codecs items
AreSent w codecs items = ⊥

pub equal : (m n : ℕ) → m ≡ n → m == n ≡ true
equal m n e = ground (arith, e)

pub positive : (n : ℕ) → 1 ≤ n → n == 0 ≡ false
positive n le = ground arith

module _ (w : Wire) (v : IsWire w) where
  open w use {int32}

  length-data : (n : ℕ) (b : Bytes) → length (int32 (pos n) ++ b) ≡ 4 + length b
  length-data n b = let l = length-append (int32 (pos n)) b in omega (arith, v.length-int32 (pos n))

module _ {V : Type 0} (w : Wire) (v : IsWire w) where
  open w use {int32, unpack_int32, frb_read}

  length-AreSent :
      (codecs : List (Codec V)) (items : List (Option V))
      → AreSent w codecs items
      → length items ≡ length codecs
  length-AreSent [] [] s = refl
  length-AreSent [] (item ∷ items) s = absurd s
  length-AreSent (codec ∷ codecs) [] s = absurd s
  length-AreSent (codec ∷ codecs) (item ∷ items) (s, ss) = ap suc (length-AreSent codecs items ss)

  sent_fields :
      (words : Words) (codecs : List (Codec V)) (items : List (Option V))
      → AreSent w codecs items
      → (b : Bytes) × (encode_fields w codecs items ≡ ok b)
        × ((tail_ : Bytes) → decode_fields w words codecs (b ++ tail_) ≡ ok (items, tail_))
  unfolding encode_fields decode_fields
  sent_fields words [] [] s = ([], refl, λ t. refl)
  sent_fields words [] (item ∷ items) s = absurd s
  sent_fields words (codec ∷ codecs) [] s = absurd s
  sent_fields words (codec ∷ codecs) (item ∷ items) (s, ss) =
      let (z, b, written, short, read) = sent_item w v codec argument_error words.element item s in
      let (bs, all_written, all_read) = sent_fields words codecs items ss in
      let o = int32 (pos 0) in
      (
        o ++ ((int32 z ++ b) ++ bs),
        rw (written, encode_fields) (rw all_written refl),
        λ t.
            rw
              (append_assoc o ((int32 z ++ b) ++ bs) t
                ∙ ap (λ x. o ++ x)
                    (append_assoc (int32 z ++ b) bs t ∙ append_assoc (int32 z) b (bs ++ t)))
              (rw (read_int32 w v (pos 0) (int32 z ++ (b ++ (bs ++ t))), decode_fields)
                (rw (read_int32 w v z (b ++ (bs ++ t)))
                  (rw (v.unpack-int32 z short) (rw (read (bs ++ t)) (rw (all_read t) refl))))),
      )

  decode_count :
      (words : Words) (codecs : List (Codec V)) (items : List (Option V)) (b : Bytes)
      → length items < 2 ^ 31
      → length items ≡ length codecs
      → decode_fields w words codecs b ≡ ok (items, [])
      → decode w words codecs (int32 (pos (length items)) ++ b) ≡ ok (items, [])
  unfolding decode uint32
  decode_count words codecs items b few same read =
      rw (read_int32 w v (pos (length items)) b, decode)
        (rw (v.unpack-int32 (pos (length items)) few)
          (rw (equal (length items) (length codecs) same) read))

  encode_some :
      (codecs : List (Codec V)) (items : List (Option V)) (b : Bytes)
      → all_arguments codecs ≡ true
      → length items < 2 ^ 31
      → 1 ≤ length items
      → length items ≡ length codecs
      → encode_fields w codecs items ≡ ok b
      → encode w codecs items ≡ ok (int32 (pos (4 + length b)) ++ (int32 (pos (length items)) ++ b))
  unfolding encode encode_record
  encode_some codecs items b fine few filled same written =
      rw (fine, encode)
        (rw (positive (length items) filled) (
          rw (small (length items) few)
            (rw (equal (length items) (length codecs) same) (rw written refl))))

  encode_none :
      (codecs : List (Codec V))
      → codecs ≡ []
      → encode w codecs [] ≡ ok (int32 (pos 4) ++ (int32 (pos 0) ++ []))
  unfolding encode all_arguments
  encode_none codecs e = rw (e, encode) (rw (v.int32_zero) (rw (v.int32_four) refl))

  -- Writing a tuple of arguments succeeds, and gives its length and its data, from which the tuple is
  -- read with nothing left, also by a named tuple: if the library reads numbers and slices as they
  -- are written, there is one codec for each element, the codecs are of scalars, arrays or enums,
  -- each element that is there is written and read so by its codec, and the tuple has fewer than
  -- 2 ^ 31 elements, whose bytes are fewer than 2 ^ 31 with the count.
  pub tuple_codec-IsSent :
      (words : Words) (codecs : List (Codec V)) (items : List (Option V))
      → all_arguments codecs ≡ true
      → length items < 2 ^ 31
      → AreSent w codecs items
      → ((b : Bytes) → encode_fields w codecs items ≡ ok b → 4 + length b < 2 ^ 31)
      → IsSent w (tuple_codec w words codecs) items
  unfolding tuple_codec
  tuple_codec-IsSent words [] [] fine few s short = (
    int32 (pos 0) ++ [],
    encode_none [] refl
        ∙ ap (λ n. ok (int32 (pos n) ++ (int32 (pos 0) ++ []))) (sym (length-data w v 0 [])),
    decode_count words [] [] [] few refl refl,
    omega (arith, length-data w v 0 []),
  )
  tuple_codec-IsSent words [] (item ∷ items) fine few s short = absurd s
  tuple_codec-IsSent words (codec ∷ codecs) [] fine few s short = absurd s
  tuple_codec-IsSent words (codec ∷ codecs) (item ∷ items) fine few s short =
      let (b, written, read) = sent_fields words (codec ∷ codecs) (item ∷ items) s in
      let n = suc (length items) in
      let fits = short b written in
      (
        int32 (pos n) ++ b,
        encode_some (codec ∷ codecs) (item ∷ items) b fine few (omega arith)
              (length-AreSent (codec ∷ codecs) (item ∷ items) s) written
            ∙ ap (λ m. ok (int32 (pos m) ++ (int32 (pos n) ++ b))) (sym (length-data w v n b)),
        decode_count words (codec ∷ codecs) (item ∷ items) b few
            (length-AreSent (codec ∷ codecs) (item ∷ items) s)
            (ap (decode_fields w words (codec ∷ codecs)) (sym (append-nil b)) ∙ read []),
        omega (arith, length-data w v n b),
      )
