-- ===== src/Errors/Class.antt =====
-- The class objects of edgedb/errors/_base.py and edgedb/errors/tags.py.
use edgedb_python.Prelude.{
  ℕ, String, Bool, true, false, ◌||◌, ◌==◌, string_eq, List, [], ◌∷◌, Option, none, some,
}

pub data Tag : Type 0 where
  should_reconnect should_retry : Tag

-- A class with the class that it derives from. `builtin` is an exception class of Python itself;
-- a subclass has its name, its base, its `_code`, and its `tags` where the class sets them.
pub data Class : Type 0 where
  edgedb_error edgedb_message : Class
  builtin : String → Class
  subclass : String → Class → ℕ → Option (List Tag) → Class

unfoldable pub class_name : Class → String
class_name edgedb_error = "EdgeDBError"
class_name edgedb_message = "EdgeDBMessage"
class_name (builtin n) = n
class_name (subclass n b c t) = n

-- `_code`
unfoldable pub code_of : Class → Option ℕ
code_of (subclass n b c t) = some c
code_of _ = none

-- `tags`, inherited where the class sets none.
unfoldable pub tags_of : Class → List Tag
tags_of (subclass n b c (some ts)) = ts
tags_of (subclass n b c none) = tags_of b
tags_of _ = []

unfoldable pub same_tag : Tag → Tag → Bool
same_tag should_reconnect should_reconnect = true
same_tag should_retry should_retry = true
same_tag _ _ = false

tag_in : Tag → List Tag → Bool
unfolding same_tag
tag_in t [] = false
tag_in t (u ∷ us) = same_tag t u || tag_in t us

-- `EdgeDBError.has_tag`
unfoldable pub has_tag : Class → Tag → Bool
unfolding tags_of tag_in
has_tag c t = tag_in t (tags_of c)

-- `issubclass(c, d)`; the names of the classes are distinct.
unfoldable pub is_subclass : Class → Class → Bool
unfolding class_name
is_subclass (subclass n b c t) d = n == class_name d || is_subclass b d
is_subclass c d = class_name c == class_name d
