-- ===== src/Errors/Registry.antt =====
-- edgedb/errors/_base.py: the metaclasses `EdgeDBErrorMeta` and `EdgeDBMessageMeta` with the
-- indices that they fill, `_lookup_cls`, `_decode` and `_severity_name`.
pub mod Nearest
use edgedb_python.Prelude.Dict.{get, put, get-put}
use edgedb_python.Prelude.{
  ℕ, ◌-◌, ◌/◌, ◌%◌, ◌^◌, ◌<◌, ◌≡◌, refl, ◌↔◌, String, Bool, true, false, not, ◌&&◌, ◌||◌, ◌==◌, Eq,
  nat_eq, nat_beq, ltb, leb, List, [], ◌∷◌, Option, none, some, or_else, if◌then◌else◌, arith, All,
  Bool-cases, inl, inr,
}
use edgedb_python.Errors.Class.{Class, code_of}

-- `(b1, b2, b3, b4)`
pub record Quad : Type 0 where
  pub b1 : ℕ
  pub b2 : ℕ
  pub b3 : ℕ
  pub b4 : ℕ

unfoldable pub quad_beq : Quad → Quad → Bool
quad_beq p q = p.b1 == q.b1 && p.b2 == q.b2 && p.b3 == q.b3 && p.b4 == q.b4

pub quad_beq_iff : (p q : Quad) → (quad_beq p q ≡ true) ↔ (p ≡ q)
unfolding quad_beq
quad_beq_iff p q = ground arith

instance abbrev pub quad_eq : Eq Quad
quad_eq = record { equal = quad_beq; equal_iff = quad_beq_iff }

-- `code.to_bytes(4, 'big')` of a code below 2 ^ 32.
unfoldable pub bytes_of : ℕ → Quad
bytes_of code = record {
  b1 = code / 2 ^ 24;
  b2 = code / 2 ^ 16 % 256;
  b3 = code / 2 ^ 8 % 256;
  b4 = code % 256;
}

-- `_decode`: `none` stands for the OverflowError of `to_bytes`.
unfoldable pub decode : ℕ → Option Quad
unfolding bytes_of
decode code = if ltb code (2 ^ 32) then some (bytes_of code) else none

pub record Meta : Type 0 where
  pub index : List (ℕ × Class)
  pub base_class_index : List (Quad × Class)

abbrev pub empty_meta : Meta
empty_meta = record { index = []; base_class_index = [] }

-- Some byte of the code is zero.
unfoldable pub is_base : Quad → Bool
is_base q = q.b1 == 0 || q.b2 == 0 || q.b3 == 0 || q.b4 == 0

-- `Meta.__new__`; `none` where `_decode` raises.
unfoldable pub register : Class → Meta → Option Meta
unfolding decode is_base
register cls m = elim (code_of cls) [
  | none ↦ some m
  | some code ↦ elim (decode code) [
    | none ↦ none
    | some q ↦ some (record {
      index = put code cls m.index;
      base_class_index = if is_base q then put q cls m.base_class_index else m.base_class_index;
    })
  ]
]

-- The class statements of a module, one after the other.
unfoldable pub register_all : List Class → Meta → Option Meta
register_all [] m = some m
register_all (c ∷ cs) m = elim (register c m) [ none ↦ none | some m' ↦ register_all cs m' ]

-- `_lookup_cls`
unfoldable pub lookup_cls : Meta → Class → ℕ → Option Class
unfolding decode
lookup_cls m default code = elim (get code m.index) [
  | some cls ↦ some cls
  | none ↦ elim (decode code) [
    | none ↦ none
    | some q ↦ elim (get (record q { b4 = 0 }) m.base_class_index) [
      | some cls ↦ some cls
      | none ↦ elim (get (record q { b3 = 0; b4 = 0 }) m.base_class_index) [
        | some cls ↦ some cls
        | none ↦ elim (get (record q { b2 = 0; b3 = 0; b4 = 0 }) m.base_class_index) [
          | some cls ↦ some cls
          | none ↦ some default
        ]
      ]
    ]
  ]
]

-- `_severity_name`
unfoldable pub severity_name : ℕ → String
severity_name severity =
    if leb severity 20
    then "DEBUG"
    else if leb severity 40
    then "INFO"
    else if leb severity 60
    then "NOTICE"
    else if leb severity 80
    then "WARNING"
    else if leb severity 120
    then "ERROR"
    else if leb severity 200
    then "FATAL"
    else "PANIC"
