-- ===== src/Codecs/Sent.antt =====
-- An array is read as it was written.
use mathlib.Core.List.{append-nil}
use edgedb_python.Prelude.Int.{ℤ, pos}
use edgedb_python.Prelude.{
  ℕ, ◌+◌, ◌-◌, ◌^◌, ◌<◌, ◌≡◌, refl, ap, sym, ◌∙◌, true, false, ltb, List, [], ◌++◌, Option, length,
  length-append, All, arith,
}
use edgedb_python.Errors.Raise.{ok}
use edgedb_python.Codecs.{Bytes, Wire, IsWire, Codec, scalar, uint32, IsSent, IsItemSent}
use edgedb_python.Codecs.Array.{
  array_bytes, is_scalar, allows, encode_items, encode, decode_items, decode_elements, decode_dims,
  decode, array_codec,
}
use edgedb_python.Codecs.Items.{read_int32, sent_items}

pub small : (n : ℕ) → n < 2 ^ 31 → ltb (2 ^ 31 - 1) n ≡ false
small n lt = ground arith

module _ (w : Wire) (v : IsWire w) where
  open w use {int32, unpack_int32, frb_read}

  -- The data of an array, without its length.
  abbrev array_data : ℕ → Bytes → Bytes
  array_data n b =
      int32 (pos 1) ++ (int32 (pos 0) ++ (int32 (pos 0) ++ (int32 (pos n) ++ (int32 (pos 1) ++ b))))

  length-array_data : (n : ℕ) (b : Bytes) → length (array_data n b) ≡ 20 + length b
  length-array_data n b =
      let l1 =
        length-append (int32 (pos 1))
          (int32 (pos 0) ++ (int32 (pos 0) ++ (int32 (pos n) ++ (int32 (pos 1) ++ b)))) in
      let l2 =
        length-append (int32 (pos 0)) (int32 (pos 0) ++ (int32 (pos n) ++ (int32 (pos 1) ++ b))) in
      let l3 = length-append (int32 (pos 0)) (int32 (pos n) ++ (int32 (pos 1) ++ b)) in
      let l4 = length-append (int32 (pos n)) (int32 (pos 1) ++ b) in
      let l5 = length-append (int32 (pos 1)) b in
      omega (arith, v.length-int32 (pos 1), v.length-int32 (pos 0), v.length-int32 (pos n))

  module _ {V : Type 0} (codec : Codec V) where
    decode-array_data :
        (cardinality : ℤ) (items : List (Option V)) (b : Bytes)
        → length items < 2 ^ 31
        → allows cardinality (length items) ≡ true
        → decode_items w codec (length items) b ≡ ok (items, [])
        → decode w cardinality codec (array_data (length items) b) ≡ ok (items, [])
    unfolding decode decode_dims decode_elements uint32
    decode-array_data cardinality items b few right read =
        let n = length items in
        rw
          (
            read_int32 w v (pos 1)
                (int32 (pos 0) ++ (int32 (pos 0) ++ (int32 (pos n) ++ (int32 (pos 1) ++ b)))),
            decode,
          )
          (rw (read_int32 w v (pos 0) (int32 (pos 0) ++ (int32 (pos n) ++ (int32 (pos 1) ++ b)))) (
            rw (read_int32 w v (pos 0) (int32 (pos n) ++ (int32 (pos 1) ++ b))) (
              rw (v.unpack-int32 (pos 1) (omega arith)) (
                rw (read_int32 w v (pos n) (int32 (pos 1) ++ b)) (
                  rw (v.unpack-int32 (pos n) few)
                    (rw right (rw (read_int32 w v (pos 1) b) read)))))))

    encode-array_data :
        (items : List (Option V)) (b : Bytes)
        → codec.kind ≡ scalar
        → length items < 2 ^ 31
        → encode_items w codec items ≡ ok b
        → encode w codec items
          ≡ ok (int32 (pos (length (array_data (length items) b))) ++ array_data (length items) b)
    unfolding encode array_bytes is_scalar
    encode-array_data items b kind few written =
        rw (kind, encode)
          (rw (small (length items) few)
            (rw written (rw (length-array_data (length items) b) refl)))

    -- Writing an array of scalars succeeds, and gives its length and its data, from which the array is
    -- read with nothing left: if the library reads numbers and slices as they are written, each
    -- element that is there is written and read so by the codec of the elements, the array has fewer
    -- than 2 ^ 31 elements, whose bytes are fewer than 2 ^ 31 with the header, and the array type
    -- allows this number of elements.
    pub array_codec-IsSent :
        (cardinality : ℤ) (items : List (Option V))
        → codec.kind ≡ scalar
        → length items < 2 ^ 31
        → allows cardinality (length items) ≡ true
        → All (IsItemSent w codec) items
        → ((b : Bytes) → encode_items w codec items ≡ ok b → 20 + length b < 2 ^ 31)
        → IsSent w (array_codec w cardinality codec) items
    unfolding array_codec
    array_codec-IsSent cardinality items kind few right s short =
        let (b, written, read) = sent_items w v codec items s in
        let len = length-array_data (length items) b in
        let fits = short b written in
        (
          array_data (length items) b,
          encode-array_data items b kind few written,
          decode-array_data cardinality items b few right
              (ap (decode_items w codec (length items)) (sym (append-nil b)) ∙ read []),
          omega arith,
        )
