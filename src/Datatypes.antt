-- ===== src/Datatypes.antt =====
-- edgedb/datatypes/relative_duration.pyx: relative durations, and their text as code points.
pub mod Sign
use edgedb_python.Prelude.Int.{ℤ, pos, negsuc}
use edgedb_python.Prelude.{
  ℕ, zero, suc, ◌+◌, ◌-◌, ◌*◌, ◌/◌, ◌%◌, ◌==◌, nat_eq, Bool, true, false, ◌&&◌, ◌||◌, ltb, List, [],
  ◌∷◌, ◌++◌, length, if◌then◌else◌,
}

-- `RelativeDuration`
pub record RelativeDuration : Type 0 where
  pub microseconds : ℤ
  pub days : ℤ
  pub months : ℤ

-- Arithmetic of C integers; a division cuts off towards 0. No result here is larger than what it is
-- made from, so nothing wraps around.
unfoldable pub negated : ℕ → ℤ
negated zero = pos 0
negated (suc n) = negsuc n

unfoldable pub quotient : ℤ → ℕ → ℤ
unfolding negated
quotient (pos n) k = pos (n / k)
quotient (negsuc n) k = negated (suc n / k)

unfoldable pub remainder : ℤ → ℕ → ℤ
unfolding negated
remainder (pos n) k = pos (n % k)
remainder (negsuc n) k = negated (suc n % k)

unfoldable pub multiple : ℤ → ℕ → ℤ
unfolding negated
multiple (pos n) k = pos (n * k)
multiple (negsuc n) k = negated (suc n * k)

unfoldable pub difference : ℕ → ℕ → ℤ
unfolding negated
difference a b = if ltb a b then negated (b - a) else pos (a - b)

unfoldable pub minus : ℤ → ℤ → ℤ
unfolding difference
minus (pos a) (pos b) = difference a b
minus (pos a) (negsuc b) = pos (a + suc b)
minus (negsuc a) (pos b) = negsuc (a + b)
minus (negsuc a) (negsuc b) = difference (suc b) (suc a)

unfoldable pub is_zero : ℤ → Bool
is_zero (pos zero) = true
is_zero _ = false

unfoldable pub is_negative : ℤ → Bool
is_negative (pos n) = false
is_negative (negsuc n) = true

unfoldable pub magnitude : ℤ → ℕ
magnitude (pos n) = n
magnitude (negsuc n) = suc n

abbrev pub Text : Type 0
Text = List ℕ

-- `str(n)`; `n` units of fuel are enough, since a division by 10 makes a number other than 0 smaller.
unfoldable pub str_digits : ℕ → ℕ → Text
str_digits zero n = (48 + n) ∷ []
str_digits (suc fuel) n =
    let rest = str_digits fuel (n / 10) in
    if ltb n 10 then (48 + n) ∷ [] else rest ++ (48 + n % 10) ∷ []

unfoldable pub str_of : ℤ → Text
unfolding str_digits
str_of (pos n) = str_digits n n
str_of (negsuc n) = 45 ∷ str_digits (suc n) (suc n)

-- `{text:0>6}`
unfoldable pub pad_to : ℕ → Text → Text
pad_to zero text = text
pad_to (suc n) text = if ltb (length text) (suc n) then 48 ∷ pad_to n text else text

-- `rstrip('0')`
unfoldable pub rstrip : Text → Text
rstrip [] = []
rstrip (c ∷ cs) =
    let rest = rstrip cs in elim rest [ [] ↦ if c == 48 then [] else c ∷ [] | d ∷ ds ↦ c ∷ d ∷ ds ]

-- The local variables `hour`, `min`, `sec` and `fsec` of `__str__`.
unfoldable pub hour : ℤ → ℤ
unfolding quotient
hour time = quotient time 3600000000

unfoldable pub after_hour : ℤ → ℤ
unfolding hour minus multiple
after_hour time = minus time (multiple (hour time) 3600000000)

unfoldable pub minute : ℤ → ℤ
unfolding quotient after_hour
minute time = quotient (after_hour time) 60000000

unfoldable pub after_minute : ℤ → ℤ
unfolding minute minus multiple after_hour
after_minute time = minus (after_hour time) (multiple (minute time) 60000000)

unfoldable pub second : ℤ → ℤ
unfolding quotient after_minute
second time = quotient (after_minute time) 1000000

unfoldable pub fraction : ℤ → ℤ
unfolding second minus multiple after_minute
fraction time = minus (after_minute time) (multiple (second time) 1000000)

-- A number other than 0, and the letter of its unit
unfoldable pub unit_text : ℤ → ℕ → Text
unfolding is_zero str_of
unit_text n letter = if is_zero n then [] else str_of n ++ letter ∷ []

unfoldable pub fraction_text : ℤ → Text
unfolding is_zero rstrip pad_to str_digits magnitude
fraction_text fsec =
    if is_zero fsec
    then []
    else rstrip (46 ∷ pad_to 6 (str_digits (magnitude fsec) (magnitude fsec)))

unfoldable pub second_text : ℤ → ℤ → ℤ → Text
unfolding is_zero is_negative str_digits magnitude fraction_text
second_text min sec fsec =
    if is_zero sec && is_zero fsec
    then []
    else (if is_negative min || is_negative fsec then 45 ∷ [] else [])
      ++ (str_digits (magnitude sec) (magnitude sec) ++ (fraction_text fsec ++ 83 ∷ []))

-- Hours, minutes, seconds and microseconds
unfoldable pub clock_text : ℤ → ℤ → ℤ → ℤ → Text
unfolding unit_text second_text
clock_text hours min sec fsec =
    84 ∷ unit_text hours 72 ++ (unit_text min 77 ++ second_text min sec fsec)

unfoldable pub time_text : ℤ → Text
unfolding is_zero hour minute second fraction clock_text
time_text time =
    if is_zero time then [] else clock_text (hour time) (minute time) (second time) (fraction time)

-- Years, months and days, and the text of the time
unfoldable pub date_text : ℤ → ℤ → Text → Text
unfolding unit_text quotient remainder
date_text months days rest =
    80 ∷ unit_text (quotient months 12) 89
    ++ (unit_text (remainder months 12) 77 ++ (unit_text days 68 ++ rest))

-- `__str__`. Its check that `hour` and `tfrac` have the same sign compares a number with itself.
unfoldable pub text : RelativeDuration → Text
unfolding is_zero date_text time_text
text d =
    if is_zero d.months && (is_zero d.days && is_zero d.microseconds)
    then 80 ∷ 84 ∷ 48 ∷ 83 ∷ []
    else date_text d.months d.days (time_text d.microseconds)
