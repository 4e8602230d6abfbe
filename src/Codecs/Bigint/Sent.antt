-- ===== src/Codecs/Bigint/Sent.antt =====
-- An integer of any size is read as it was written.
use mathlib.Core.List.{append-nil, append_assoc}
use edgedb_python.Prelude.Int.{ℤ, pos, negsuc}
use edgedb_python.Prelude.{
  ℕ, zero, suc, ◌+◌, ◌-◌, ◌*◌, ◌/◌, ◌%◌, ◌^◌, ◌<◌, ◌≡◌, refl, ap, sym, ◌∙◌, Bool, true, false,
  nat_eq, List, [], ◌∷◌, ◌++◌, length, length-append, All, arith,
}
use edgedb_python.Errors.Raise.{ok}
use edgedb_python.Codecs.{Bytes, Wire, IsWire, uint16, IsSent}
use edgedb_python.Codecs.Read.{Read, ◌>>=◌, pure, lift, read_uint16}
use edgedb_python.Codecs.Follows.{and_then}
use edgedb_python.Codecs.Bigint.{
  digits, magnitude, decimal, zfill, signed_value, write_digits, encode_digits, bigint_encode,
  read_text, check_sign, check_scale, decode_digits, bigint_decode, bigint_codec,
}
use edgedb_python.Codecs.Bigint.Digits.{text_of, digits-suc, number_of_digits, signed_of}

module _ (w : Wire) (v : IsWire w) where
  open w use {int32, int16}

  pub read_int16 :
      (n : ℕ) (rest : Bytes) → n < 2 ^ 15 → read_uint16 w (int16 (pos n) ++ rest) ≡ ok (n, rest)
  unfolding read_uint16 uint16
  read_int16 n rest lt =
      let bytes : w.frb_read 2 (int16 (pos n) ++ rest) ≡ ok (int16 (pos n), rest) =
        ap (λ k. w.frb_read k (int16 (pos n) ++ rest)) (sym (v.length-int16 (pos n)))
        ∙ v.read_front (int16 (pos n)) rest in
      and_then (w.frb_read 2) (λ b. pure (uint16 (w.unpack_int16 b))) (int16 (pos n) ++ rest) rest
        (int16 (pos n)) bytes
      ∙ ap (λ z. ok (uint16 z, rest)) (v.unpack-int16 (pos n) lt)

  read_one :
      (n d : ℕ) (tail_ rest text : Bytes)
      → d < 2 ^ 15
      → read_text w n n tail_ ≡ ok (text, rest)
      → read_text w (suc n) (suc n) (int16 (pos d) ++ tail_) ≡ ok (zfill (decimal d) ++ text, rest)
  unfolding read_text
  read_one n d tail_ rest text lt e =
      and_then (read_uint16 w) (λ d. read_text w n n >>= λ rest. pure (zfill (decimal d) ++ rest))
        (int16 (pos d) ++ tail_) tail_ d (read_int16 d tail_ lt)
      ∙ and_then (read_text w n n) (λ rest. pure (zfill (decimal d) ++ rest)) tail_ rest text e

  -- The digits that were written are read before what follows them.
  read_written :
      (ds : List ℕ) (n : ℕ) (tail_ rest text : Bytes)
      → All (λ d. d < 10000) ds
      → read_text w n n tail_ ≡ ok (text, rest)
      → read_text w (length ds + n) (length ds + n) (write_digits w ds ++ tail_)
        ≡ ok (text_of ds ++ text, rest)
  unfolding write_digits text_of
  read_written [] n tail_ rest text s e =
      let same : 0 + n ≡ n = omega arith in ap (λ k. read_text w k k tail_) same ∙ e
  read_written (d ∷ ds) n tail_ rest text (small, s) e =
      let next : suc (length ds) + n ≡ length ds + suc n = omega arith in
      ap (λ k. read_text w k k ((write_digits w ds ++ int16 (pos d)) ++ tail_)) next
      ∙ ap (read_text w (length ds + suc n) (length ds + suc n))
          (append_assoc (write_digits w ds) (int16 (pos d)) tail_)
      ∙ read_written ds (suc n) (int16 (pos d) ++ tail_) rest (zfill (decimal d) ++ text) s
          (read_one n d tail_ rest text (omega arith) e)
      ∙ ap (λ x. ok (x, rest)) (sym (append_assoc (text_of ds) (zfill (decimal d)) text))

  length-write_digits : (ds : List ℕ) → length (write_digits w ds) ≡ length ds * 2
  unfolding write_digits
  length-write_digits [] = omega arith
  length-write_digits (d ∷ ds) = omega (
    arith,
    length-write_digits ds,
    length-append (write_digits w ds) (int16 (pos d)),
    v.length-int16 (pos d),
  )

  -- The data of a number without its length.
  abbrev big_data : ℕ → List ℕ → Bytes
  big_data sign ds =
      int16 (pos (length ds))
      ++ (int16 (pos (length ds - 1)) ++ (int16 (pos sign) ++ (int16 (pos 0) ++ write_digits w ds)))

  length-big_data : (sign : ℕ) (ds : List ℕ) → length (big_data sign ds) ≡ 8 + length ds * 2
  length-big_data sign ds =
      let l1 = length-append (int16 (pos (length ds))) (
        int16 (pos (length ds - 1))
        ++ (int16 (pos sign) ++ (int16 (pos 0) ++ write_digits w ds))) in
      let l2 =
        length-append (int16 (pos (length ds - 1)))
          (int16 (pos sign) ++ (int16 (pos 0) ++ write_digits w ds)) in
      let l3 = length-append (int16 (pos sign)) (int16 (pos 0) ++ write_digits w ds) in
      let l4 = length-append (int16 (pos 0)) (write_digits w ds) in
      omega (
        arith,
        v.length-int16 (pos (length ds)),
        v.length-int16 (pos (length ds - 1)),
        v.length-int16 (pos sign),
        v.length-int16 (pos 0),
        length-write_digits ds,
      )

  read_digits :
      (d : ℕ) (ds : List ℕ)
      → All (λ d. d < 10000) (d ∷ ds)
      → read_text w (suc (length ds)) (suc (length ds)) (write_digits w (d ∷ ds))
        ≡ ok (text_of (d ∷ ds), [])
  unfolding read_text
  read_digits d ds s =
      let same : suc (length ds) ≡ suc (length ds) + 0 = omega arith in
      ap (λ k. read_text w k k (write_digits w (d ∷ ds))) same
      ∙ ap (read_text w (suc (length ds) + 0) (suc (length ds) + 0))
          (sym (append-nil (write_digits w (d ∷ ds))))
      ∙ read_written (d ∷ ds) 0 [] [] [] s refl
      ∙ ap (λ x. ok (x, [])) (append-nil (text_of (d ∷ ds)))

  -- A header of four numbers.
  read_four :
      {A : Type 0} (k : ℕ → ℕ → ℕ → ℕ → Read A) (a b c d : ℕ) (rest : Bytes)
      → a < 2 ^ 15
      → b < 2 ^ 15
      → c < 2 ^ 15
      → d < 2 ^ 15
      → (read_uint16 w >>= λ a.
            read_uint16 w >>= λ b. read_uint16 w >>= λ c. read_uint16 w >>= λ d. k a b c d)
          (int16 (pos a) ++ (int16 (pos b) ++ (int16 (pos c) ++ (int16 (pos d) ++ rest))))
        ≡ k a b c d rest
  read_four k a b c d rest la lb lc ld =
      let r = read_uint16 w in
      let b3 = int16 (pos d) ++ rest in
      let b2 = int16 (pos c) ++ b3 in
      let b1 = int16 (pos b) ++ b2 in
      and_then r (λ a. r >>= λ b. r >>= λ c. r >>= λ d. k a b c d) (int16 (pos a) ++ b1) b1 a
        (read_int16 a b1 la)
      ∙ and_then r (λ b. r >>= λ c. r >>= λ d. k a b c d) b1 b2 b (read_int16 b b2 lb)
      ∙ and_then r (λ c. r >>= λ d. k a b c d) b2 b3 c (read_int16 c b3 lc)
      ∙ and_then r (λ d. k a b c d) b3 rest d (read_int16 d rest ld)

  decode_big :
      (negative : Bool) (sign d : ℕ) (ds : List ℕ)
      → check_sign sign ≡ ok negative
      → sign < 2 ^ 15
      → suc (length ds) < 2 ^ 15
      → All (λ d. d < 10000) (d ∷ ds)
      → bigint_decode w (big_data sign (d ∷ ds)) ≡ ok (signed_value negative (text_of (d ∷ ds)), [])
  unfolding bigint_decode decode_digits check_scale
  decode_big negative sign d ds signed small few s =
      let n = suc (length ds) in
      let k : ℕ → ℕ → ℕ → ℕ → Read ℤ = λ ndigits weight sign dscale.
        lift (check_sign sign) >>= λ negative.
        lift (check_scale dscale) >>= λ _. decode_digits w ndigits weight negative in
      let less : suc (n - 1) ≡ n = omega arith in
      read_four k n (n - 1) sign 0 (write_digits w (d ∷ ds)) few (omega arith) small (omega arith)
      ∙ rw (signed) (
          and_then (read_text w (suc (n - 1)) n) (λ text. pure (signed_value negative text))
            (write_digits w (d ∷ ds)) [] (text_of (d ∷ ds))
            (ap (λ m. read_text w m n (write_digits w (d ∷ ds))) less ∙ read_digits d ds s))

  zero-IsSent : IsSent w (bigint_codec w) (pos 0)
  unfolding bigint_codec bigint_encode bigint_decode decode_digits check_sign check_scale
  zero-IsSent =
      let data_ = int16 (pos 0) ++ (int16 (pos 0) ++ (int16 (pos 0) ++ (int16 (pos 0) ++ []))) in
      let k : ℕ → ℕ → ℕ → ℕ → Read ℤ = λ ndigits weight sign dscale.
        lift (check_sign sign) >>= λ negative.
        lift (check_scale dscale) >>= λ _. decode_digits w ndigits weight negative in
      let eight : length data_ ≡ 8 = rw (v.int16_zero) refl in
      let parts : int32 (pos 0) ++ (int16 (pos 0) ++ int16 (pos 0)) ≡ data_ =
        rw (v.int16_zero, v.int32_zero) refl in
      (
        data_,
        rw (parts, eight) refl,
        read_four k 0 0 0 0 [] (omega arith) (omega arith) (omega arith) (omega arith),
        omega (arith, eight),
      )

  big-IsSent :
      (negative : Bool) (sign d : ℕ) (ds : List ℕ) (z : ℤ)
      → check_sign sign ≡ ok negative
      → sign < 2 ^ 15
      → suc (length ds) < 2 ^ 15
      → All (λ d. d < 10000) (d ∷ ds)
      → signed_value negative (text_of (d ∷ ds)) ≡ z
      → bigint_encode w z ≡ ok (encode_digits w sign (d ∷ ds))
      → IsSent w (bigint_codec w) z
  unfolding bigint_codec encode_digits
  big-IsSent negative sign d ds z signed small few s same written =
      let size = length-big_data sign (d ∷ ds) in
      (
        big_data sign (d ∷ ds),
        written ∙ ap (λ n. ok (int32 (pos n) ++ big_data sign (d ∷ ds))) (sym size),
        decode_big negative sign d ds signed small few s ∙ ap (λ x. ok (x, [])) same,
        omega (arith, size),
      )

  -- An integer is read as it was written, if it has less than 2 ^ 15 digits to the base 10000.
  pub bigint_codec-IsSent :
      (z : ℤ) → length (digits (magnitude z) (magnitude z)) < 2 ^ 15 → IsSent w (bigint_codec w) z
  unfolding bigint_encode check_sign
  bigint_codec-IsSent (pos zero) few = zero-IsSent
  bigint_codec-IsSent (pos (suc n)) few =
      let (s, total) = number_of_digits n in
      big-IsSent false 0 (suc n % 10000) (digits n (suc n / 10000)) (pos (suc n)) refl (omega arith)
        (rw (digits-suc n) at few) s (signed_of false _ n total)
        (ap (λ ds. ok (encode_digits w 0 ds)) (digits-suc n))
  bigint_codec-IsSent (negsuc n) few =
      let (s, total) = number_of_digits n in
      big-IsSent true 0x4000 (suc n % 10000) (digits n (suc n / 10000)) (negsuc n) refl
        (omega arith) (rw (digits-suc n) at few) s (signed_of true _ n total)
        (ap (λ ds. ok (encode_digits w 0x4000 ds)) (digits-suc n))
