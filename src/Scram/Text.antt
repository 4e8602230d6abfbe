-- ===== src/Scram/Text.antt =====
-- Python's `split(sep)`, `partition(sep)` and `s[0:1] == b'c'` on byte strings, for a separator of
-- one byte.
use edgedb_python.Prelude.{
  ℕ, ◌≡◌, refl, Bool, true, false, ◌==◌, nat_eq, List, [], ◌∷◌, ◌++◌, if◌then◌else◌, arith, All,
}
use edgedb_python.Scram.Bytes.{Bytes}

push : ℕ → List Bytes → List Bytes
push x [] = (x ∷ []) ∷ []
push x (p ∷ ps) = (x ∷ p) ∷ ps

-- `xs.split(sep)`
unfoldable pub split : ℕ → Bytes → List Bytes
unfolding push
split sep [] = [] ∷ []
split sep (x ∷ xs) = let rest = split sep xs in if x == sep then [] ∷ rest else push x rest

-- `xs.partition(sep)[0]`
unfoldable pub before : ℕ → Bytes → Bytes
before sep [] = []
before sep (x ∷ xs) = if x == sep then [] else x ∷ before sep xs

-- `xs.partition(sep)[2]`
unfoldable pub after : ℕ → Bytes → Bytes
after sep [] = []
after sep (x ∷ xs) = if x == sep then xs else after sep xs

-- `xs[0:1] == c`
unfoldable pub begins : ℕ → Bytes → Bool
begins c [] = false
begins c (x ∷ xs) = x == c

unfoldable pub same : Bytes → Bytes → Bool
same [] [] = true
same (x ∷ xs) (y ∷ ys) = if x == y then same xs ys else false
same _ _ = false

pub same_refl : (xs : Bytes) → same xs xs ≡ true
unfolding same
same_refl [] = refl
same_refl (x ∷ xs) = ground (arith, same_refl xs)

pub same-eq : (xs ys : Bytes) → same xs ys ≡ true → xs ≡ ys
unfolding same
same-eq [] [] h = refl
same-eq [] (y ∷ ys) h = ground arith
same-eq (x ∷ xs) [] h = ground arith
same-eq (x ∷ xs) (y ∷ ys) h = ground (arith, same-eq xs ys)

-- The separator does not occur.
abbrev pub IsFree : ℕ → Bytes → Type 0
IsFree sep = All (λ x. (x == sep) ≡ false)

pub split-append :
    (sep : ℕ) (xs ys : Bytes) → IsFree sep xs → split sep (xs ++ sep ∷ ys) ≡ xs ∷ split sep ys
unfolding split
split-append sep [] ys f = ground arith
split-append sep (x ∷ xs) ys f = ground (arith, split-append sep xs ys f.1, f.0)

pub split_free : (sep : ℕ) (xs : Bytes) → IsFree sep xs → split sep xs ≡ xs ∷ []
unfolding split
split_free sep [] f = refl
split_free sep (x ∷ xs) f = ground (arith, split_free sep xs f.1, f.0)

pub after-append : (sep : ℕ) (xs ys : Bytes) → IsFree sep xs → after sep (xs ++ sep ∷ ys) ≡ ys
unfolding after
after-append sep [] ys f = ground arith
after-append sep (x ∷ xs) ys f = ground (arith, after-append sep xs ys f.1, f.0)

pub before-append : (sep : ℕ) (xs ys : Bytes) → IsFree sep xs → before sep (xs ++ sep ∷ ys) ≡ xs
unfolding before
before-append sep [] ys f = ground arith
before-append sep (x ∷ xs) ys f = ground (arith, before-append sep xs ys f.1, f.0)

pub IsFree-append :
    (sep : ℕ) (xs ys : Bytes) → IsFree sep xs → IsFree sep ys → IsFree sep (xs ++ ys)
IsFree-append sep [] ys f g = g
IsFree-append sep (x ∷ xs) ys f g = (f.0, IsFree-append sep xs ys f.1 g)
