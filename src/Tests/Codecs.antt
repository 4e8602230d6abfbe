-- ===== src/Tests/Codecs.antt =====
-- Arrays and tuples of single bytes, over buffers that are lists.
use edgedb_python.Prelude.Int.{ℤ, pos, negsuc}
use edgedb_python.Prelude.{
  ℕ, zero, suc, ◌+◌, ◌-◌, ◌*◌, ◌/◌, ◌%◌, ◌^◌, ◌<◌, ◌≡◌, refl, ap, ◌∙◌, false, ltb, List, [], ◌∷◌,
  ◌++◌, Option, none, some, if◌then◌else◌, length, length-append, drop, arith, Bool-cases, inl, inr,
  ◌≤◌,
}
use edgedb_python.Errors.Class.{builtin}
use edgedb_python.Errors.Raise.{Result, ok, raised, new}
use edgedb_python.Codecs.{IsInt64, Bytes, Wire, IsWire, IsInt32, IsInt16, Codec, scalar, IsSent}
use edgedb_python.Codecs.Array.{encode_items, array_codec, encode, array_bytes, allows}
use edgedb_python.Codecs.Tuple.{encode_fields, tuple_words, tuple_codec, all_arguments}
use edgedb_python.Codecs.Sent.{array_codec-IsSent}
use edgedb_python.Codecs.Fields.{tuple_codec-IsSent}

unfoldable pub big_endian : ℕ → Bytes
big_endian n = n / 16777216 % 256 ∷ n / 65536 % 256 ∷ n / 256 % 256 ∷ n % 256 ∷ []

unfoldable pub number : Bytes → ℕ
number (a ∷ b ∷ c ∷ d ∷ rest) = a * 16777216 + b * 65536 + c * 256 + d
number _ = 0

unfoldable pub signed : ℕ → ℤ
signed n = if ltb n (2 ^ 31) then pos n else negsuc (2 ^ 32 - 1 - n)

unfoldable pub take : ℕ → Bytes → Bytes
take zero xs = []
take (suc n) [] = []
take (suc n) (x ∷ xs) = x ∷ take n xs

unfoldable pub read : ℕ → Bytes → Result (Bytes × Bytes)
unfolding take new
read n buf =
    if ltb (length buf) n
    then raised (new (builtin "BufferError") "insufficient data in buffer")
    else ok (take n buf, drop n buf)

unfoldable pub slice : ℤ → Bytes → Result (Bytes × Bytes)
unfolding read new
slice (pos n) buf = read n buf
slice (negsuc n) buf = raised (new (builtin "BufferError") "insufficient data in buffer")

unfoldable pub pack : ℤ → Bytes
unfolding big_endian
pack (pos n) = big_endian n
pack (negsuc n) = big_endian (2 ^ 32 - suc n)

unfoldable pub pack16 : ℤ → Bytes
pack16 (pos n) = n / 256 % 256 ∷ n % 256 ∷ []
pack16 (negsuc n) = (2 ^ 16 - suc n) / 256 % 256 ∷ (2 ^ 16 - suc n) % 256 ∷ []

unfoldable pub signed16 : Bytes → ℤ
signed16 (a ∷ b ∷ rest) =
    if ltb (a * 256 + b) (2 ^ 15) then pos (a * 256 + b) else negsuc (2 ^ 16 - 1 - (a * 256 + b))
signed16 _ = pos 0

unfoldable pub pack64 : ℤ → Bytes
unfolding big_endian
pack64 (pos n) = big_endian (n / 2 ^ 32) ++ big_endian (n % 2 ^ 32)
pack64 (negsuc n) = big_endian ((2 ^ 64 - suc n) / 2 ^ 32) ++ big_endian ((2 ^ 64 - suc n) % 2 ^ 32)

unfoldable pub signed64 : Bytes → ℤ
unfolding number
signed64 b =
    let n = number b * 2 ^ 32 + number (drop 4 b) in
    if ltb n (2 ^ 63) then pos n else negsuc (2 ^ 64 - 1 - n)

abbrev pub lists : Wire
lists = record {
  int32 = pack;
  unpack_int32 = λ b. signed (number b);
  int16 = pack16;
  unpack_int16 = signed16;
  int64 = pack64;
  unpack_int64 = signed64;
  unpack_uint32 = number;
  frb_read = read;
  frb_slice_from = slice;
}

number-big_endian : (n : ℕ) → n < 2 ^ 32 → number (big_endian n) ≡ n
unfolding number big_endian
number-big_endian n lt = omega arith

signed-pos : (n : ℕ) → n < 2 ^ 31 → signed n ≡ pos n
unfolding signed
signed-pos n lt = ground arith

signed-negsuc : (n : ℕ) → n < 2 ^ 31 → signed (2 ^ 32 - suc n) ≡ negsuc n
unfolding signed
signed-negsuc n lt =
    let back : 2 ^ 32 - 1 - (2 ^ 32 - suc n) ≡ n = omega arith in ground (arith, back)

take-append : (a b : Bytes) → take (length a) (a ++ b) ≡ a
unfolding take
take-append [] b = refl
take-append (x ∷ a) b = ap (λ r. x ∷ r) (take-append a b)

drop-append : (a b : Bytes) → drop (length a) (a ++ b) ≡ b
drop-append [] b = refl
drop-append (x ∷ a) b = drop-append a b

read_append : (a b : Bytes) → read (length a) (a ++ b) ≡ ok (a, b)
unfolding read
read_append a b =
    let long = length-append a b in
    let enough : ltb (length (a ++ b)) (length a) ≡ false = ground arith in
    rw (enough, read) (rw (take-append a b) (rw (drop-append a b) refl))

unpack-pack : (z : ℤ) → IsInt32 z → signed (number (pack z)) ≡ z
unfolding pack
unpack-pack (pos n) lt = ap signed (number-big_endian n (omega arith)) ∙ signed-pos n lt
unpack-pack (negsuc n) lt =
    ap signed (number-big_endian (2 ^ 32 - suc n) (omega arith)) ∙ signed-negsuc n lt

length-pack : (z : ℤ) → length (pack z) ≡ 4
unfolding pack big_endian
length-pack (pos n) = refl
length-pack (negsuc n) = refl

unpack-pack16 : (z : ℤ) → IsInt16 z → signed16 (pack16 z) ≡ z
unfolding pack16 signed16
unpack-pack16 (pos n) lt =
    let back : n / 256 % 256 * 256 + n % 256 ≡ n = omega arith in rw back (ground arith)
unpack-pack16 (negsuc n) lt =
    let m : ℕ = 2 ^ 16 - suc n in
    let back : m / 256 % 256 * 256 + m % 256 ≡ m = omega arith in
    let again : 2 ^ 16 - 1 - m ≡ n = omega arith in rw back (ground (arith, again))

length-pack16 : (z : ℤ) → length (pack16 z) ≡ 2
unfolding pack16
length-pack16 (pos n) = refl
length-pack16 (negsuc n) = refl

number64 :
    (n : ℕ)
    → n < 2 ^ 64
    → number (big_endian (n / 2 ^ 32)) * 2 ^ 32 + number (big_endian (n % 2 ^ 32)) ≡ n
number64 n lt = omega (
  arith,
  number-big_endian (n / 2 ^ 32) (omega arith),
  number-big_endian (n % 2 ^ 32) (omega arith),
)

signed64-pack64 :
    (n : ℕ)
    → n < 2 ^ 64
    → signed64 (big_endian (n / 2 ^ 32) ++ big_endian (n % 2 ^ 32))
      ≡ (if ltb n (2 ^ 63) then pos n else negsuc (2 ^ 64 - 1 - n))
unfolding signed64 big_endian number
signed64-pack64 n lt =
    ap (λ m. if ltb m (2 ^ 63) then pos m else negsuc (2 ^ 64 - 1 - m)) (number64 n lt)

unpack-pack64 : (z : ℤ) → IsInt64 z → signed64 (pack64 z) ≡ z
unfolding pack64
unpack-pack64 (pos n) lt = signed64-pack64 n (omega arith) ∙ ground arith
unpack-pack64 (negsuc n) lt =
    let m : ℕ = 2 ^ 64 - suc n in
    let again : 2 ^ 64 - 1 - m ≡ n = omega arith in
    signed64-pack64 m (omega arith) ∙ ground (arith, again)

length-pack64 : (z : ℤ) → length (pack64 z) ≡ 8
unfolding pack64 big_endian
length-pack64 (pos n) = refl
length-pack64 (negsuc n) = refl

take-drop :
    (n : ℕ) (xs : Bytes) → n ≤ length xs → (xs ≡ take n xs ++ drop n xs) × (length (take n xs) ≡ n)
unfolding take
take-drop zero xs le = (refl, refl)
take-drop (suc n) [] le = absurd (omega arith)
take-drop (suc n) (x ∷ xs) le =
    let (e, l) = take-drop n xs (omega arith) in (ap (λ r. x ∷ r) e, ap suc l)

read_back : (n : ℕ) (buf a b : Bytes) → read n buf ≡ ok (a, b) → (buf ≡ a ++ b) × (length a ≡ n)
unfolding read
read_back n buf a b e = elim (Bool-cases (ltb (length buf) n)) [
  | inl short ↦ absurd (let e' = rw (short, read) at e in cc e')
  | inr enough ↦ let (whole, size) = take-drop n buf (ground arith) in ground (arith, whole, size)
]

pub lists-IsWire : IsWire lists
unfolding pack slice big_endian signed number pack16
lists-IsWire = record {
  unpack-int32 = unpack-pack;
  length-int32 = length-pack;
  int32_zero = refl;
  int16_zero = refl;
  int32_four = refl;
  unpack-int16 = unpack-pack16;
  length-int16 = length-pack16;
  unpack-int64 = unpack-pack64;
  length-int64 = length-pack64;
  read_back = read_back;
  read_front = read_append;
  slice_front = read_append;
}

-- A scalar of one byte.
byte : Codec ℕ
unfolding pack big_endian new
byte = record {
  kind = scalar;
  encode = λ n. ok (pack (pos 1) ++ n ∷ []);
  decode = λ b. elim b [
    | [] ↦ raised (new (builtin "BufferError") "insufficient data in buffer")
    | n ∷ rest ↦ ok (n, rest)
  ];
}

byte-IsSent : (n : ℕ) → IsSent lists byte n
unfolding byte
byte-IsSent n = (n ∷ [], refl, refl, omega arith)

abbrev seven_none_nine : List (Option ℕ)
seven_none_nine = some 7 ∷ none ∷ some 9 ∷ []

abbrev size_of : Result Bytes → ℕ
size_of (ok b) = length b
size_of (raised e) = 0

array_size : (b : Bytes) → encode_items lists byte seven_none_nine ≡ ok b → 20 + length b < 2 ^ 31
unfolding encode_items byte pack big_endian
array_size b e = let size : 14 ≡ length b = ap size_of e in omega arith

tuple_size :
    (b : Bytes)
    → encode_fields lists (byte ∷ byte ∷ byte ∷ []) seven_none_nine ≡ ok b
    → 4 + length b < 2 ^ 31
unfolding encode_fields byte pack big_endian
tuple_size b e = let size : 26 ≡ length b = ap size_of e in omega arith

bytes_of_array :
    encode lists byte (some 7 ∷ none ∷ [])
    ≡ ok (
        0 ∷ 0 ∷ 0 ∷ 29 ∷ 0 ∷ 0 ∷ 0 ∷ 1 ∷ 0 ∷ 0 ∷ 0 ∷ 0 ∷ 0 ∷ 0 ∷ 0 ∷ 0 ∷ 0 ∷ 0 ∷ 0 ∷ 2 ∷ 0 ∷ 0 ∷ 0
        ∷ 1 ∷ 0 ∷ 0 ∷ 0 ∷ 1 ∷ 7 ∷ 255 ∷ 255 ∷ 255 ∷ 255 ∷ [])
unfolding encode encode_items array_bytes byte pack big_endian
bytes_of_array = refl

array_codec-IsSent_example : IsSent lists (array_codec lists (pos 3) byte) seven_none_nine
unfolding byte allows
array_codec-IsSent_example =
    array_codec-IsSent lists lists-IsWire byte (pos 3) seven_none_nine refl (omega arith) refl
      (byte-IsSent 7, (tt, (byte-IsSent 9, tt))) array_size

tuple_codec-IsSent_example :
    IsSent lists (tuple_codec lists tuple_words (byte ∷ byte ∷ byte ∷ [])) seven_none_nine
unfolding byte all_arguments
tuple_codec-IsSent_example =
    tuple_codec-IsSent lists lists-IsWire tuple_words (byte ∷ byte ∷ byte ∷ []) seven_none_nine refl
      (omega arith) (byte-IsSent 7, (tt, (byte-IsSent 9, tt))) tuple_size
