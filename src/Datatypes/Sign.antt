-- ===== src/Datatypes/Sign.antt =====
-- The sign of a time in the text of a relative duration.
use edgedb_python.Prelude.Int.{ℤ, pos}
use edgedb_python.Prelude.{
  inl, inr, Bool-cases, ℕ, zero, suc, ◌+◌, ◌-◌, ◌*◌, ◌/◌, ◌%◌, ◌≤◌, ◌<◌, ◌≡◌, refl, ap, sym, ◌∙◌,
  nat_eq, Bool, true, false, [], ◌∷◌, ◌++◌, if◌then◌else◌, arith,
}
use edgedb_python.Datatypes.{
  date_text, clock_text, str_digits, fraction_text, RelativeDuration, negated, quotient, multiple,
  difference, minus, is_zero, is_negative, magnitude, hour, after_hour, minute, after_minute,
  second, fraction, unit_text, second_text, time_text, text,
}

-- The integer with this sign and magnitude
unfoldable pub signed : Bool → ℕ → ℤ
unfolding negated
signed negative m = if negative then negated m else pos m

quotient-signed : (b : Bool) (m k : ℕ) → 0 / k ≡ 0 → quotient (signed b m) k ≡ signed b (m / k)
unfolding quotient signed
quotient-signed false m k z = refl
quotient-signed true zero k z = rw (z) refl
quotient-signed true (suc m) k z = refl

multiple-signed : (b : Bool) (q k : ℕ) → multiple (signed b q) k ≡ signed b (q * k)
unfolding multiple signed
multiple-signed false q k = refl
multiple-signed true zero k = let z : 0 * k ≡ 0 = omega arith in rw (z) refl
multiple-signed true (suc q) k = refl

minus-signed : (b : Bool) (m n : ℕ) → n ≤ m → minus (signed b m) (signed b n) ≡ signed b (m - n)
unfolding minus signed difference negated
minus-signed false m n le = ground arith
minus-signed true zero zero le = refl
minus-signed true (suc m) zero le =
    let same : m + 0 ≡ m = omega arith in
    let same' : suc m - 0 ≡ suc m = omega arith in rw (same, same') refl
minus-signed true zero (suc n) le = absurd (omega arith)
minus-signed true (suc m) (suc n) le = ground arith

hour-signed : (b : Bool) (m : ℕ) → hour (signed b m) ≡ signed b (m / 3600000000)
unfolding hour
hour-signed b m = quotient-signed b m 3600000000 refl

after_hour-signed : (b : Bool) (m : ℕ) → after_hour (signed b m) ≡ signed b (m % 3600000000)
unfolding after_hour
after_hour-signed b m =
    let rest : m - m / 3600000000 * 3600000000 ≡ m % 3600000000 = omega arith in
    ap (λ q. minus (signed b m) (multiple q 3600000000)) (hour-signed b m)
    ∙ ap (minus (signed b m)) (multiple-signed b (m / 3600000000) 3600000000)
    ∙ minus-signed b m (m / 3600000000 * 3600000000) (omega arith)
    ∙ ap (signed b) rest

minute-signed : (b : Bool) (m : ℕ) → minute (signed b m) ≡ signed b (m % 3600000000 / 60000000)
unfolding minute
minute-signed b m =
    ap (λ z. quotient z 60000000) (after_hour-signed b m)
    ∙ quotient-signed b (m % 3600000000) 60000000 refl

after_minute-signed : (b : Bool) (m : ℕ) → after_minute (signed b m) ≡ signed b (m % 60000000)
unfolding after_minute
after_minute-signed b m =
    let r = m % 3600000000 in
    let rest : r - r / 60000000 * 60000000 ≡ m % 60000000 = omega arith in
    ap (λ z. minus z (multiple (minute (signed b m)) 60000000)) (after_hour-signed b m)
    ∙ ap (λ q. minus (signed b r) (multiple q 60000000)) (minute-signed b m)
    ∙ ap (minus (signed b r)) (multiple-signed b (r / 60000000) 60000000)
    ∙ minus-signed b r (r / 60000000 * 60000000) (omega arith)
    ∙ ap (signed b) rest

second-signed : (b : Bool) (m : ℕ) → second (signed b m) ≡ signed b (m % 60000000 / 1000000)
unfolding second
second-signed b m =
    ap (λ z. quotient z 1000000) (after_minute-signed b m)
    ∙ quotient-signed b (m % 60000000) 1000000 refl

fraction-signed : (b : Bool) (m : ℕ) → fraction (signed b m) ≡ signed b (m % 1000000)
unfolding fraction
fraction-signed b m =
    let r = m % 60000000 in
    let rest : r - r / 1000000 * 1000000 ≡ m % 1000000 = omega arith in
    ap (λ z. minus z (multiple (second (signed b m)) 1000000)) (after_minute-signed b m)
    ∙ ap (λ q. minus (signed b r) (multiple q 1000000)) (second-signed b m)
    ∙ ap (minus (signed b r)) (multiple-signed b (r / 1000000) 1000000)
    ∙ minus-signed b r (r / 1000000 * 1000000) (omega arith)
    ∙ ap (signed b) rest

is_zero-signed : (b : Bool) (m : ℕ) → 0 < m → is_zero (signed b m) ≡ false
unfolding signed is_zero negated
is_zero-signed false zero lt = absurd (omega arith)
is_zero-signed false (suc m) lt = refl
is_zero-signed true zero lt = absurd (omega arith)
is_zero-signed true (suc m) lt = refl

only_seconds :
    (b : Bool) (n : ℕ)
    → clock_text (signed b 0) (signed b 0) (signed b (suc n)) (signed b 0)
      ≡ 84 ∷ (str_digits (suc n) (suc n) ++ 83 ∷ [])
unfolding clock_text second_text unit_text fraction_text is_zero is_negative magnitude signed
    negated
only_seconds false n = refl
only_seconds true n = refl

clock_of_time :
    (z : ℤ)
    → is_zero z ≡ false
    → time_text z ≡ clock_text (hour z) (minute z) (second z) (fraction z)
unfolding time_text
clock_of_time z other = rw (other, time_text) refl

-- A number of whole seconds less than a minute, of either sign, is written without its sign.
seconds_text :
    (b : Bool) (n : ℕ)
    → n < 59
    → time_text (signed b (suc n * 1000000)) ≡ 84 ∷ (str_digits (suc n) (suc n) ++ 83 ∷ [])
seconds_text b n lt =
    let m = suc n * 1000000 in
    let z = signed b m in
    let no_hour : m / 3600000000 ≡ 0 = omega arith in
    let no_minute : m % 3600000000 / 60000000 ≡ 0 = omega arith in
    let whole : m % 60000000 / 1000000 ≡ suc n = omega arith in
    let no_fraction : m % 1000000 ≡ 0 = omega arith in
    clock_of_time z (is_zero-signed b m (omega arith))
    ∙ ap (λ h. clock_text h (minute z) (second z) (fraction z))
        (hour-signed b m ∙ ap (signed b) no_hour)
    ∙ ap (λ k. clock_text (signed b 0) k (second z) (fraction z))
        (minute-signed b m ∙ ap (signed b) no_minute)
    ∙ ap (λ s. clock_text (signed b 0) (signed b 0) s (fraction z))
        (second-signed b m ∙ ap (signed b) whole)
    ∙ ap (clock_text (signed b 0) (signed b 0) (signed b (suc n)))
        (fraction-signed b m ∙ ap (signed b) no_fraction)
    ∙ only_seconds b n

date_of_text :
    (d : RelativeDuration)
    → is_zero d.microseconds ≡ false
    → text d ≡ date_text d.months d.days (time_text d.microseconds)
unfolding text
date_of_text d other = elim (Bool-cases (is_zero d.months)) [
  | inr some_month ↦ rw (some_month, text) refl
  | inl none_ ↦ elim (Bool-cases (is_zero d.days)) [
    | inr some_day ↦ rw (none_, text) (rw (some_day) refl)
    | inl no_day ↦ rw (none_, text) (rw (no_day) (rw (other) refl))
  ]
]

-- A relative duration whose time is a number of whole seconds, more than 0 and less than a minute, has
-- the same text as the one whose time is the negative of it.
pub sign_is_lost :
    (n : ℕ) (days months : ℤ)
    → 0 < n
    → n < 60
    → text (record { microseconds = signed true (n * 1000000); days = days; months = months })
      ≡ text (record { microseconds = signed false (n * 1000000); days = days; months = months })
sign_is_lost zero days months more less = absurd (omega arith)
sign_is_lost (suc n) days months more less =
    let m = suc n * 1000000 in
    let written : (b : Bool)
        → text (record { microseconds = signed b m; days = days; months = months })
          ≡ date_text months days (84 ∷ (str_digits (suc n) (suc n) ++ 83 ∷ [])) =
      λ b.
        date_of_text (record { microseconds = signed b m; days = days; months = months })
          (is_zero-signed b m (omega arith))
        ∙ ap (date_text months days) (seconds_text b n (omega arith)) in
    written true ∙ sym (written false)

-- The hours, minutes, seconds and microseconds that `__str__` writes of a time are those of its
-- magnitude, each with the sign of the time.
pub parts_of_time :
    (b : Bool) (m : ℕ)
    → (hour (signed b m) ≡ signed b (m / 3600000000))
      × (minute (signed b m) ≡ signed b (m / 60000000 % 60))
      × (second (signed b m) ≡ signed b (m / 1000000 % 60))
      × (fraction (signed b m) ≡ signed b (m % 1000000))
parts_of_time b m =
    let minutes : m % 3600000000 / 60000000 ≡ m / 60000000 % 60 = omega arith in
    let seconds : m % 60000000 / 1000000 ≡ m / 1000000 % 60 = omega arith in
    (
      hour-signed b m,
      minute-signed b m ∙ ap (signed b) minutes,
      second-signed b m ∙ ap (signed b) seconds,
      fraction-signed b m,
    )
