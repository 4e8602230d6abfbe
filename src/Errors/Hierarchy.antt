-- ===== src/Errors/Hierarchy.antt =====
-- edgedb/errors: the indices that the class statements of edgedb/errors/__init__.py fill, and the
-- lookups `_lookup_error_cls` and `_lookup_message_cls`.
use edgedb_python.Prelude.{
  ℕ, ◌+◌, ◌-◌, ◌%◌, ◌^◌, ◌<◌, ◌≡◌, refl, Bool, true, false, ◌==◌, nat_eq, string_eq, List, [], ◌∷◌,
  ◌++◌, Option, none, some, if◌then◌else◌, arith, All, map, All-of_map, All-and, zero, suc,
}
use edgedb_python.Errors.Class.{
  Class, edgedb_error, edgedb_message, subclass, should_retry, code_of, has_tag,
}
use edgedb_python.Errors.Server.{server_errors}
use edgedb_python.Errors.Query.{query_errors}
use edgedb_python.Errors.Execution.{execution_errors}
use edgedb_python.Errors.Client.{client_errors}
use edgedb_python.Prelude.Dict.{get, put}
use edgedb_python.Errors.Registry.{Meta, quad_beq, empty_meta, register, register_all, lookup_cls}

-- Whether the metaclass of a class is `EdgeDBMessageMeta`.
unfoldable pub is_message : Class → Bool
is_message edgedb_message = true
is_message (subclass n b c t) = is_message b
is_message _ = false

unfoldable pub with_root : Bool → List Class → List Class
unfolding is_message
with_root b [] = []
with_root b (c ∷ cs) = elim (is_message c) [
  | true ↦ if b then c ∷ with_root b cs else with_root b cs
  | false ↦ if b then with_root b cs else c ∷ with_root b cs
]

-- The class statements of edgedb/errors/__init__.py, in their order.
abbrev pub declared : List Class
declared = server_errors ++ (query_errors ++ (execution_errors ++ client_errors))

unfoldable pub error_meta : Option Meta
unfolding register register_all with_root put quad_beq
error_meta = register_all (with_root false declared) empty_meta

unfoldable pub message_meta : Option Meta
unfolding register register_all with_root put quad_beq
message_meta = register_all (with_root true declared) empty_meta

unfoldable pub lookup_error_cls : ℕ → Option Class
unfolding error_meta lookup_cls get quad_beq
lookup_error_cls code = elim error_meta [ none ↦ none | some m ↦ lookup_cls m edgedb_error code ]

unfoldable pub lookup_message_cls : ℕ → Option Class
unfolding message_meta lookup_cls get quad_beq
lookup_message_cls code = elim message_meta [
  | none ↦ none
  | some m ↦ lookup_cls m edgedb_message code
]

-- The code with its lowest byte that is not zero cleared.
pub parent_code : ℕ → ℕ
parent_code code =
    if code % 2 ^ 8 == 0
    then (if code % 2 ^ 16 == 0
        then (if code % 2 ^ 24 == 0 then 0 else code - code % 2 ^ 24)
        else code - code % 2 ^ 16)
    else code - code % 2 ^ 8

-- The class that the `class` statement names as the base.
pub base_of : Class → Class
base_of (subclass n b c t) = b
base_of c = c

-- The class that is found by the class's own code.
pub found_itself : Class → Option Class
found_itself c = elim (code_of c) [ none ↦ none | some code ↦ lookup_error_cls code ]

-- The class that is found by its parent code.
pub found_parent : Class → Option Class
found_parent c = elim (code_of c) [ none ↦ none | some code ↦ lookup_error_cls (parent_code code) ]

own : map found_itself (with_root false declared) ≡ map some (with_root false declared)
unfolding found_itself lookup_error_cls with_root code_of
own = refl

parents :
    map found_parent (with_root false declared)
    ≡ map (λ c. some (base_of c)) (with_root false declared)
unfolding found_parent lookup_error_cls parent_code base_of with_root code_of
parents = refl

-- Each exception class of the module is found by its own code, and the lookup of that code with
-- its lowest nonzero byte cleared gives the base class that its class statement names; so codes
-- and class hierarchy agree.
pub hierarchy_by_code :
    All
      (λ c. (found_itself c ≡ some c) × (found_parent c ≡ some (base_of c)))
      (with_root false declared)
hierarchy_by_code =
    All-and _ _ (with_root false declared)
      (All-of_map found_itself some (with_root false declared) own)
      (All-of_map found_parent (λ c. some (base_of c)) (with_root false declared) parents)

-- Whether an error with the code would be retried.
pub retried : ℕ → Bool
retried code = elim (lookup_error_cls code) [ none ↦ false | some c ↦ has_tag c should_retry ]

-- The test holds for each number below the bound.
each_below : (ℕ → Bool) → ℕ → Bool
each_below test zero = true
each_below test (suc bound) = if test bound then each_below test bound else false

each_below_sound :
    (test : ℕ → Bool) (bound i : ℕ) → i < bound → each_below test bound ≡ true → test i ≡ true
unfolding each_below
each_below_sound test zero i lt all = absurd (omega arith)
each_below_sound test (suc bound) i lt all = ground (arith, each_below_sound test bound i)

conflict_table : each_below (λ i. retried (0x05_03_01_00 + i)) 256 ≡ true
unfolding each_below retried lookup_error_cls has_tag code_of
conflict_table = refl

-- Every code of the transaction conflict family, also one that this client does not declare, is
-- looked up as a class with the tag SHOULD_RETRY.
conflict_retried : (i : ℕ) → i < 256 → retried (0x05_03_01_00 + i) ≡ true
conflict_retried i h = each_below_sound (λ i. retried (0x05_03_01_00 + i)) 256 i h conflict_table
