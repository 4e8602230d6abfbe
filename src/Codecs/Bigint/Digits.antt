-- ===== src/Codecs/Bigint/Digits.antt =====
-- The digits to the base 10000 of a number, and their text, give the number again.
use edgedb_python.Prelude.Int.{pos, negsuc}
use edgedb_python.Prelude.{
  ℕ, zero, suc, ◌+◌, ◌-◌, ◌*◌, ◌/◌, ◌%◌, ◌≤◌, ◌<◌, ◌≡◌, refl, ap, sym, ◌∙◌, Bool, false, ◌==◌,
  nat_eq, List, [], ◌∷◌, ◌++◌, if◌then◌else◌, All, arith, Bool-cases, inl, inr,
}
use edgedb_python.Codecs.{Bytes}
use edgedb_python.Codecs.Bigint.{digits, decimal, zfill, value, signed_value}

-- The number with these digits, the lowest one first.
abbrev number : List ℕ → ℕ
number [] = 0
number (d ∷ ds) = number ds * 10000 + d

number-digits : (fuel n : ℕ) → n ≤ fuel → number (digits fuel n) ≡ n
unfolding digits
number-digits zero n le = omega arith
number-digits (suc fuel) n le = elim (Bool-cases (n == 0)) [
  | inl done ↦ rw (done, digits) (ground arith)
  | inr more ↦
      let ih = number-digits fuel (n / 10000) (ground arith) in
      rw (more, digits) (omega (arith, ih))
]

digits_small : (fuel n : ℕ) → All (λ d. d < 10000) (digits fuel n)
unfolding digits
digits_small zero n = tt
digits_small (suc fuel) n = elim (Bool-cases (n == 0)) [
  | inl done ↦ rw (done, digits) tt
  | inr more ↦ rw (more, digits) (omega arith, digits_small fuel (n / 10000))
]

value-append : (acc : ℕ) (a b : Bytes) → value acc (a ++ b) ≡ value (value acc a) b
unfolding value
value-append acc [] b = refl
value-append acc (c ∷ a) b = value-append (acc * 10 + (c - 48)) a b

-- Four places for each digit.
value_of_digit : (acc d : ℕ) → d < 10000 → value acc (zfill (decimal d)) ≡ acc * 10000 + d
unfolding value zfill decimal
value_of_digit acc d lt = ground arith

-- The text of the digits, the highest one first.
unfoldable pub text_of : List ℕ → Bytes
text_of [] = []
text_of (d ∷ ds) = text_of ds ++ zfill (decimal d)

value-text_of : (ds : List ℕ) → All (λ d. d < 10000) ds → value 0 (text_of ds) ≡ number ds
unfolding text_of value
value-text_of [] s = refl
value-text_of (d ∷ ds) (small, s) =
    value-append 0 (text_of ds) (zfill (decimal d))
    ∙ ap (λ a. value a (zfill (decimal d))) (value-text_of ds s)
    ∙ value_of_digit (number ds) d small

pub digits-suc : (n : ℕ) → digits (suc n) (suc n) ≡ suc n % 10000 ∷ digits n (suc n / 10000)
unfolding digits
digits-suc n = let more : (suc n == 0) ≡ false = ground arith in rw (more, digits) refl

pub number_of_digits :
    (n : ℕ)
    → let ds = suc n % 10000 ∷ digits n (suc n / 10000) in
      All (λ d. d < 10000) ds × (value 0 (text_of ds) ≡ suc n)
number_of_digits n =
    let ds = suc n % 10000 ∷ digits n (suc n / 10000) in
    let s = rw (digits-suc n) at (digits_small (suc n) (suc n)) in
    (
      s,
      value-text_of ds s
          ∙ ap number (sym (digits-suc n))
          ∙ number-digits (suc n) (suc n) (omega arith),
    )

pub signed_of :
    (negative : Bool) (text : Bytes) (n : ℕ)
    → value 0 text ≡ suc n
    → signed_value negative text ≡ (if negative then negsuc n else pos (suc n))
unfolding signed_value
signed_of negative text n e = rw (e, signed_value) refl
