-- ===== src/Codecs/Items.antt =====
-- Elements of an array are read as they were written.
use mathlib.Core.List.{append-nil, append_assoc}
use edgedb_python.Prelude.Int.{ℤ, pos, negsuc}
use edgedb_python.Prelude.{
  ◌≡◌, refl, ap, sym, ◌∙◌, String, List, [], ◌∷◌, ◌++◌, Option, none, some, length, All, arith,
}
use edgedb_python.Errors.Raise.{Exception, ok}
use edgedb_python.Codecs.{Bytes, Wire, IsWire, IsInt32, Codec, IsItemSent}
use edgedb_python.Codecs.Array.{
  is_empty, encode_item, encode_items, element_error, decode_item, decode_items,
}

module _ (w : Wire) (v : IsWire w) where
  open w use {int32, unpack_int32, frb_read, frb_slice_from}

  -- Four bytes are read as they were written.
  pub read_int32 : (z : ℤ) (rest : Bytes) → frb_read 4 (int32 z ++ rest) ≡ ok (int32 z, rest)
  read_int32 z rest =
      ap (λ n. frb_read n (int32 z ++ rest)) (sym (v.length-int32 z)) ∙ v.read_front (int32 z) rest

  module _ {V : Type 0} (codec : Codec V) where
    -- A written element is its length and its data, from which it is read.
    pub sent_item :
        (fix : Exception → Exception) (what : String) (item : Option V)
        → IsItemSent w codec item
        → (z : ℤ) × (b : Bytes) × (encode_item w fix codec item ≡ ok (int32 z ++ b))
          × IsInt32 z
          × ((tail_ : Bytes) → decode_item w what codec z (b ++ tail_) ≡ ok (item, tail_))
    unfolding encode_item decode_item is_empty
    sent_item fix what none s =
        (negsuc 0, [], ap ok (sym (append-nil (int32 (negsuc 0)))), omega arith, λ t. refl)
    sent_item fix what (some a) (data_, written, read, short) = (
      pos (length data_),
      data_,
      rw (written, encode_item) refl,
      short,
      λ t. rw (v.slice_front data_ t, decode_item) (rw read refl),
    )

    -- The elements are read from what `encode` wrote for them.
    pub sent_items :
        (items : List (Option V))
        → All (IsItemSent w codec) items
        → (b : Bytes) × (encode_items w codec items ≡ ok b)
          × ((tail_ : Bytes) → decode_items w codec (length items) (b ++ tail_) ≡ ok (items, tail_))
    unfolding encode_items decode_items
    sent_items [] s = ([], refl, λ t. refl)
    sent_items (item ∷ items) (s, ss) =
        let (z, b, written, short, read) = sent_item element_error "array" item s in
        let (bs, all_written, all_read) = sent_items items ss in
        (
          (int32 z ++ b) ++ bs,
          rw (written, encode_items) (rw all_written refl),
          λ t. rw (append_assoc (int32 z ++ b) bs t ∙ append_assoc (int32 z) b (bs ++ t)) (
              rw (read_int32 z (b ++ (bs ++ t)), decode_items)
                (rw (v.unpack-int32 z short) (rw (read (bs ++ t)) (rw (all_read t) refl)))),
        )
