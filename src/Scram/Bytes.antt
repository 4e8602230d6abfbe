-- ===== src/Scram/Bytes.antt =====
-- Python's `bytes`: integers read from and written to bytes, `split` and `partition`, and `XOR` of
-- edgedb/scram/__init__.py. Text in ASCII is its bytes.
use Prim.Native.Nat.{bit_xor}
use native.Mathlib.Nat.{pow-suc}
use native.Mathlib.Numerals.{towards_suc}
use mathlib.Core.Path.{ap₂, ◌≡⟨◌⟩◌, ◌∎}
use mathlib.Core.List.{append-nil}
use edgedb_python.Prelude.Xor.{bit_xor_undo, bit_xor-lt}
use edgedb_python.Prelude.{
  ℕ, zero, suc, ◌+◌, ◌*◌, ◌/◌, ◌%◌, ◌^◌, ◌≤◌, ◌<◌, ◌≡◌, refl, ap, ◌∙◌, ◌==◌, nat_eq, ltb, List, [],
  ◌∷◌, ◌++◌, if◌then◌else◌, arith, length, All, lt→ltb,
}
use edgedb_python.Errors.Class.{builtin}
use edgedb_python.Errors.Raise.{Result, ok, raised, new}

abbrev pub Bytes : Type 0
Bytes = List ℕ

abbrev pub IsBytes : Bytes → Type 0
IsBytes = All (λ x. x < 256)

-- `int.from_bytes(xs, 'big')`, from an accumulator.
unfoldable pub from_bytes : ℕ → Bytes → ℕ
from_bytes acc [] = acc
from_bytes acc (x ∷ xs) = from_bytes (acc * 256 + x) xs

-- The last `k` bytes of `n`, before `acc`.
unfoldable pub last_bytes : ℕ → ℕ → Bytes → Bytes
last_bytes zero n acc = acc
last_bytes (suc k) n acc = last_bytes k (n / 256) (n % 256 ∷ acc)

-- `n.to_bytes(k, 'big')`
unfoldable pub to_bytes : ℕ → ℕ → Result Bytes
unfolding last_bytes new
to_bytes n k =
    if ltb n (256 ^ k)
    then ok (last_bytes k n [])
    else raised (new (builtin "OverflowError") "int too big to convert")

-- `XOR`
unfoldable pub xor : Bytes → Bytes → Result Bytes
unfolding from_bytes to_bytes new
xor a b =
    if length a == length b
    then to_bytes (bit_xor (from_bytes 0 a) (from_bytes 0 b)) (length a)
    else raised (new (builtin "ValueError") "scram.XOR received operands of unequal length")

last-from :
    (xs : Bytes) (k a : ℕ) (acc : Bytes)
    → IsBytes xs
    → last_bytes (length xs + k) (from_bytes a xs) acc ≡ last_bytes k a (xs ++ acc)
unfolding last_bytes from_bytes
last-from [] k a acc b = let same : 0 + k ≡ k = omega arith in ap (λ m. last_bytes m a acc) same
last-from (x ∷ xs) k a acc b =
    let more : length (x ∷ xs) + k ≡ length xs + suc k = omega arith in
    let high : (a * 256 + x) / 256 ≡ a = omega arith in
    let low : (a * 256 + x) % 256 ≡ x = omega arith in
    ap (λ m. last_bytes m (from_bytes (a * 256 + x) xs) acc) more
    ∙ last-from xs (suc k) (a * 256 + x) acc b.1
    ∙ ap₂ (λ n y. last_bytes k n (y ∷ (xs ++ acc))) high low

from-last :
    (k n : ℕ) (acc : Bytes) → n < 256 ^ k → from_bytes 0 (last_bytes k n acc) ≡ from_bytes n acc
unfolding last_bytes from_bytes
from-last zero n acc h = let none_left : 0 ≡ n = omega arith in ap (λ m. from_bytes m acc) none_left
from-last (suc k) n acc h =
    from-last k (n / 256) (n % 256 ∷ acc) (omega (arith, pow-suc 256 k))
    ∙ (let whole : n / 256 * 256 + n % 256 ≡ n = omega arith in ap (λ m. from_bytes m acc) whole)

byte_times : (x p : ℕ) → x < 256 → (x + 1) * p ≤ 256 * p
byte_times x p h = grind arith

from_bytes-lt : (xs : Bytes) (a : ℕ) → IsBytes xs → from_bytes a xs < (a + 1) * 256 ^ length xs
unfolding from_bytes
from_bytes-lt [] a b = omega arith
from_bytes-lt (x ∷ xs) a b = omega (
  arith,
  from_bytes-lt xs (a * 256 + x) b.1,
  byte_times x (256 ^ length xs) b.0,
  ap (λ p. (a + 1) * p) (pow-suc 256 (length xs)),
)

pow_256 : (k : ℕ) → 256 ^ k ≡ 2 ^ (8 * k)
pow_256 zero = refl
pow_256 (suc k) =
    let e : 8 * suc k ≡ 8 * k + 8 = omega arith in
    rw e (simp towards_suc (omega (arith, pow_256 k)))

IsBytes-last : (k n : ℕ) (acc : Bytes) → IsBytes acc → IsBytes (last_bytes k n acc)
unfolding last_bytes
IsBytes-last zero n acc b = b
IsBytes-last (suc k) n acc b = IsBytes-last k (n / 256) (n % 256 ∷ acc) (omega arith, b)

length-last_bytes : (k n : ℕ) (acc : Bytes) → length (last_bytes k n acc) ≡ k + length acc
unfolding last_bytes
length-last_bytes zero n acc = omega arith
length-last_bytes (suc k) n acc = omega (arith, length-last_bytes k (n / 256) (n % 256 ∷ acc))

-- The bytes of the exclusive or of two byte strings of one length.
pub xor_bytes : Bytes → Bytes → Bytes
xor_bytes a b = last_bytes (length a) (bit_xor (from_bytes 0 a) (from_bytes 0 b)) []

xor_fits :
    (a b : Bytes)
    → IsBytes a
    → IsBytes b
    → length a ≡ length b
    → bit_xor (from_bytes 0 a) (from_bytes 0 b) < 256 ^ length a
xor_fits a b p q e = rw (pow_256 (length a)) (
    bit_xor-lt (8 * length a) (from_bytes 0 a) (from_bytes 0 b)
      (rw (← pow_256 (length a)) (omega (arith, from_bytes-lt a 0 p)))
      (rw (← pow_256 (length a)) (rw e (omega (arith, from_bytes-lt b 0 q)))))

pub xor-eq :
    (a b : Bytes) → IsBytes a → IsBytes b → length a ≡ length b → xor a b ≡ ok (xor_bytes a b)
unfolding xor to_bytes xor_bytes
xor-eq a b p q e = ground (arith, lt→ltb _ _ (xor_fits a b p q e))

pub xor_bytes-length : (a b : Bytes) → length (xor_bytes a b) ≡ length a
unfolding xor_bytes
xor_bytes-length a b =
    omega (arith, length-last_bytes (length a) (bit_xor (from_bytes 0 a) (from_bytes 0 b)) [])

pub xor_bytes-IsBytes : (a b : Bytes) → IsBytes (xor_bytes a b)
unfolding xor_bytes
xor_bytes-IsBytes a b = IsBytes-last (length a) _ [] tt

xor_bytes_undo :
    (a b : Bytes) → IsBytes a → IsBytes b → length a ≡ length b → xor_bytes (xor_bytes a b) b ≡ a
unfolding xor_bytes last_bytes from_bytes
xor_bytes_undo a b p q e =
    last_bytes (length (xor_bytes a b)) (bit_xor (from_bytes 0 (xor_bytes a b)) (from_bytes 0 b)) []
    ≡⟨ ap₂ (λ k x. last_bytes k (bit_xor x (from_bytes 0 b)) []) (xor_bytes-length a b)
        (from-last (length a) _ [] (xor_fits a b p q e)) ⟩
      last_bytes (length a) (bit_xor (bit_xor (from_bytes 0 a) (from_bytes 0 b)) (from_bytes 0 b))
        []
    ≡⟨ ap (λ x. last_bytes (length a) x []) (bit_xor_undo (from_bytes 0 a) (from_bytes 0 b)) ⟩
      last_bytes (length a) (from_bytes 0 a) []
    ≡⟨ (let more : length a ≡ length a + 0 = omega arith in
        ap (λ k. last_bytes k (from_bytes 0 a) []) more) ⟩
      last_bytes (length a + 0) (from_bytes 0 a) []
    ≡⟨ last-from a 0 0 [] p ⟩ last_bytes 0 0 (a ++ [])
    ≡⟨ append-nil a ⟩ a ∎

-- `XOR` of two byte strings of one length succeeds with a byte string of that length, and a second
-- `XOR` with the same operand gives back the first one.
pub xor_undo :
    (a b : Bytes)
    → IsBytes a
    → IsBytes b
    → length a ≡ length b
    → (c : Bytes) × (xor a b ≡ ok c) × (length c ≡ length a) × IsBytes c × (xor c b ≡ ok a)
xor_undo a b p q e = (
  xor_bytes a b,
  xor-eq a b p q e,
  xor_bytes-length a b,
  xor_bytes-IsBytes a b,
  xor-eq (xor_bytes a b) b (xor_bytes-IsBytes a b) q (xor_bytes-length a b ∙ e)
      ∙ ap ok (xor_bytes_undo a b p q e),
)
