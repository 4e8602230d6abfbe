-- ===== src/Errors/Raise.antt =====
-- Exceptions as values, and Python code that returns or raises.
use edgedb_python.Prelude.{ℕ, String, ◌≡◌, refl, ◌⊎◌, inl, inr, Bool, Option, none, some}
use edgedb_python.Errors.Class.{Class, code_of}
use edgedb_python.Errors.Hierarchy.{lookup_error_cls}

-- An instance of a class: its `_code` and its first argument.
pub record Exception : Type 0 where
  pub cls : Class
  pub code : Option ℕ
  pub message : String

-- `cls(message)`
unfoldable pub new : Class → String → Exception
unfolding code_of
new cls message = record { cls = cls; code = code_of cls; message = message }

-- `EdgeDBError._from_code`; `none` where the lookup raises.
unfoldable pub from_code : ℕ → String → Option Exception
from_code code message = elim (lookup_error_cls code) [
  | none ↦ none
  | some cls ↦ some (record { cls = cls; code = some code; message = message })
]

pub data Result {ℓ} (A : Type ℓ) : Type ℓ where
  ok : A → Result A
  raised : Exception → Result A

-- Code that goes on with the value that the code before it returned.
infixl 5 ◌>>=◌ ◌>>◌
abbrev pub ◌>>=◌ {ℓ κ} :
    {Before : Type ℓ} {After : Type κ} → Result Before → (Before → Result After) → Result After
raised exc >>= rest = raised exc
ok value >>= rest = rest value

abbrev pub ◌>>◌ {ℓ} : {After : Type ℓ} → Result (Unit {0}) → Result After → Result After
first >> rest = first >>= λ _. rest

-- `if not test: raise e`
abbrev pub require : Bool → Exception → Result (Unit {0})
require Bool.true e = ok tt
require Bool.false e = raised e

-- The code raises an exception of exactly this class.
abbrev pub Raises {ℓ} : {A : Type ℓ} → Class → Result A → Type 0
Raises c (ok a) = ⊥
Raises c (raised e) = e.cls ≡ c

pub Result-cases {ℓ} :
    {A : Type ℓ} (r : Result A) → ((a : A) × (r ≡ ok a)) ⊎ ((e : Exception) × (r ≡ raised e))
Result-cases (ok a) = inl (a, refl)
Result-cases (raised e) = inr (e, refl)
