-- ===== src/Errors/Registry/Nearest.antt =====
-- The two indices of a metaclass against one search of the class statements by code prefix.
use edgedb_python.Prelude.Dict.{get, get-put}
use edgedb_python.Prelude.{
  ℕ, ◌-◌, ◌%◌, ◌^◌, ◌<◌, ◌≡◌, Bool, true, false, ◌==◌, nat_eq, List, [], ◌∷◌, Option, none, some,
  or_else, if◌then◌else◌, arith, inl, inr, Option-cases, ap, ◌∙◌, lt→ltb,
}
use edgedb_python.Errors.Class.{Class, code_of}
use edgedb_python.Errors.Registry.{
  Quad, quad_eq, quad_beq_iff, bytes_of, Meta, empty_meta, is_base, register, register_all,
  lookup_cls,
}

pub has_code : Class → ℕ → Bool
has_code c code = elim (code_of c) [ none ↦ false | some k ↦ k == code ]

-- The last class statement with the code.
pub registered : List Class → ℕ → Option Class
unfolding has_code
registered [] code = none
registered (c ∷ cs) code = or_else (registered cs code) (if has_code c code then some c else none)

-- The class with the code, else with the code whose last byte, last two, last three are cleared.
pub nearest : List Class → Class → ℕ → Class
nearest cs default code = elim (registered cs code) [
  | some c ↦ c
  | none ↦ elim (registered cs (code - code % 2 ^ 8)) [
    | some c ↦ c
    | none ↦ elim (registered cs (code - code % 2 ^ 16)) [
      | some c ↦ c
      | none ↦ elim (registered cs (code - code % 2 ^ 24)) [ some c ↦ c | none ↦ default ]
    ]
  ]
]

bytes_of-injective : (a b : ℕ) → bytes_of a ≡ bytes_of b → a ≡ b
unfolding bytes_of
bytes_of-injective a b h =
    omega (arith, ap (λ q. q.b1) h, ap (λ q. q.b2) h, ap (λ q. q.b3) h, ap (λ q. q.b4) h)

bytes_of-beq : (a b : ℕ) → (bytes_of a == bytes_of b) ≡ (a == b)
bytes_of-beq a b = ground (arith, quad_beq_iff (bytes_of a) (bytes_of b), bytes_of-injective a b)

index-register :
    (c : Class) (m : Meta) (code : ℕ) {m' : Meta}
    → register c m ≡ some m'
    → get code m'.index ≡ or_else (if has_code c code then some c else none) (get code m.index)
unfolding register has_code
index-register c m code h = elim (Option-cases (code_of c)) [
  | inl e ↦ ground arith
  | inr (k, e) ↦ ground (arith, get-put k code c m.index)
]

base-register :
    (c : Class) (m : Meta) (code : ℕ) {m' : Meta}
    → register c m ≡ some m'
    → is_base (bytes_of code) ≡ true
    → get (bytes_of code) m'.base_class_index
      ≡ or_else (if has_code c code then some c else none) (get (bytes_of code) m.base_class_index)
unfolding register has_code
base-register c m code h b = elim (Option-cases (code_of c)) [
  | inl e ↦ ground arith
  | inr (k, e) ↦ ground (
    arith,
    get-put (bytes_of k) (bytes_of code) c m.base_class_index,
    bytes_of-beq k code,
    bytes_of-injective k code,
    quad_beq_iff (bytes_of k) (bytes_of code),
  )
]

index-register_all :
    (cs : List Class) (m : Meta) (code : ℕ) {m' : Meta}
    → register_all cs m ≡ some m'
    → get code m'.index ≡ or_else (registered cs code) (get code m.index)
unfolding register_all registered
index-register_all [] m code h = ground arith
index-register_all (c ∷ cs) m code h = elim (Option-cases (register c m)) [
  | inl e ↦ ground arith
  | inr (n, e) ↦
      ground
        (arith, index-register c m code e, index-register_all cs n code (rw (e, register_all) at h))
]

base-register_all :
    (cs : List Class) (m : Meta) (code : ℕ) {m' : Meta}
    → register_all cs m ≡ some m'
    → is_base (bytes_of code) ≡ true
    → get (bytes_of code) m'.base_class_index
      ≡ or_else (registered cs code) (get (bytes_of code) m.base_class_index)
unfolding register_all registered
base-register_all [] m code h b = ground arith
base-register_all (c ∷ cs) m code h b = elim (Option-cases (register c m)) [
  | inl e ↦ ground arith
  | inr (n, e) ↦
      ground (
        arith,
        base-register c m code e b,
        base-register_all cs n code (rw (e, register_all) at h) b,
      )
]

quad_ext : {p q : Quad} → p.b1 ≡ q.b1 → p.b2 ≡ q.b2 → p.b3 ≡ q.b3 → p.b4 ≡ q.b4 → p ≡ q
quad_ext h1 h2 h3 h4 i = record { b1 = h1 i; b2 = h2 i; b3 = h3 i; b4 = h4 i }

is_base_of_last : (code : ℕ) → code % 256 ≡ 0 → is_base (bytes_of code) ≡ true
unfolding is_base bytes_of
is_base_of_last code h = ground arith

module _ (cs : List Class) {m : Meta} (done : register_all cs empty_meta ≡ some m) where
  exact : (code : ℕ) → get code m.index ≡ registered cs code
  unfolding get
  exact code = ground (arith, index-register_all cs empty_meta code done)

  by_prefix :
      (code : ℕ) → code % 256 ≡ 0 → get (bytes_of code) m.base_class_index ≡ registered cs code
  unfolding get
  by_prefix code h =
      ground (arith, base-register_all cs empty_meta code done (is_base_of_last code h))

  -- The three searches of the base index: by the first three bytes, the first two, the first.
  by_three :
      (code : ℕ)
      → get (record (bytes_of code) { b4 = 0 }) m.base_class_index
        ≡ registered cs (code - code % 2 ^ 8)
  unfolding bytes_of
  by_three code =
      ap (λ q. get q m.base_class_index)
        (quad_ext (omega arith) (omega arith) (omega arith) (omega arith))
      ∙ by_prefix (code - code % 2 ^ 8) (omega arith)

  by_two :
      (code : ℕ)
      → get (record (bytes_of code) { b3 = 0; b4 = 0 }) m.base_class_index
        ≡ registered cs (code - code % 2 ^ 16)
  unfolding bytes_of
  by_two code =
      ap (λ q. get q m.base_class_index)
        (quad_ext (omega arith) (omega arith) (omega arith) (omega arith))
      ∙ by_prefix (code - code % 2 ^ 16) (omega arith)

  by_one :
      (code : ℕ)
      → get (record (bytes_of code) { b2 = 0; b3 = 0; b4 = 0 }) m.base_class_index
        ≡ registered cs (code - code % 2 ^ 24)
  unfolding bytes_of
  by_one code =
      ap (λ q. get q m.base_class_index)
        (quad_ext (omega arith) (omega arith) (omega arith) (omega arith))
      ∙ by_prefix (code - code % 2 ^ 24) (omega arith)

  -- Once the class statements of a module have run, the lookup of any 32-bit code succeeds and
  -- gives the class declared last with that code, else the one with the code whose last byte is
  -- cleared, else with two bytes cleared, else with three, and else the default.
  pub lookup_cls-nearest :
      (default : Class) (code : ℕ)
      → code < 2 ^ 32
      → lookup_cls m default code ≡ some (nearest cs default code)
  unfolding lookup_cls nearest
  lookup_cls-nearest default code h =
      ground (arith, lt→ltb code (2 ^ 32) h, exact code, by_three code, by_two code, by_one code)
