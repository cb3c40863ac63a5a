-- ===== src/Base/Bytes.antt =====
-- Go strings and byte slices as lists of bytes, with the functions of `strings` that the program
-- calls. Case folding and white space are those of ASCII.
use Prim.Native.Nat.{ℕ, suc, ◌+◌, ◌-◌, ◌≤◌}
use Prim.Native.Char.{code}
use Prim.Native.String.{String}
use mathlib.Core.Path.{◌≡◌, refl, sym, ap, ◌∙◌}
use mathlib.Core.Logic.{◌↔◌, inl, inr}
use mathlib.Core.Bool.{Bool, true, false, not, ◌&&◌, ◌||◌}
use mathlib.Core.List.{List, [], ◌∷◌, ◌++◌, map}
use mathlib.Core.Option.{Option, none, some}
use native.Mathlib.Omega.{arith}
use gogoclaw.Base.Tests.{leb, ◌==◌, if◌then◌else◌, Option-cases}
use gogoclaw.Base.Lists.{length, take, drop, take-append-drop, keep_if}

abbrev pub Bytes : Type 0
Bytes = List ℕ

-- The bytes of an ASCII literal.
abbrev pub bytes : String → Bytes
bytes String.[] = []
bytes (String.◌∷◌ c s) = code c ∷ bytes s

unfoldable pub bytes_eq : Bytes → Bytes → Bool
bytes_eq [] [] = true
bytes_eq (x ∷ xs) (y ∷ ys) = x == y && bytes_eq xs ys
bytes_eq _ _ = false

pub bytes_eq_iff : (xs ys : Bytes) → (bytes_eq xs ys ≡ true) ↔ (xs ≡ ys)
unfolding bytes_eq
bytes_eq_iff [] [] = ground arith
bytes_eq_iff [] (y ∷ ys) = ground arith
bytes_eq_iff (x ∷ xs) [] = ground arith
bytes_eq_iff (x ∷ xs) (y ∷ ys) = ground (arith, bytes_eq_iff xs ys)

pub bytes_eq_refl : (xs : Bytes) → bytes_eq xs xs ≡ true
bytes_eq_refl xs = (bytes_eq_iff xs xs).1 refl

-- `strings.HasPrefix`
unfoldable pub has_prefix : Bytes → Bytes → Bool
has_prefix s [] = true
has_prefix [] (y ∷ ys) = false
has_prefix (x ∷ xs) (y ∷ ys) = x == y && has_prefix xs ys

pub has_prefix-append : (s p : Bytes) → has_prefix s p ≡ true → s ≡ p ++ drop (length p) s
unfolding has_prefix
has_prefix-append s [] h = refl
has_prefix-append [] (y ∷ ys) h = ground arith
has_prefix-append (x ∷ xs) (y ∷ ys) h = ground (arith, has_prefix-append xs ys)

pub append-has_prefix : (p s : Bytes) → has_prefix (p ++ s) p ≡ true
unfolding has_prefix
append-has_prefix [] s = refl
append-has_prefix (x ∷ p) s = ground (arith, append-has_prefix p s)

-- `strings.HasSuffix`
unfoldable pub has_suffix : Bytes → Bytes → Bool
unfolding bytes_eq
has_suffix s p = leb (length p) (length s) && bytes_eq (drop (length s - length p) s) p

pub has_suffix-append :
    (s p : Bytes) → has_suffix s p ≡ true → s ≡ take (length s - length p) s ++ p
unfolding has_suffix
has_suffix-append s p h =
    sym (take-append-drop (length s - length p) s)
    ∙ ap (◌++◌ (take (length s - length p) s)) ((bytes_eq_iff _ p).0 (ground arith))

-- `strings.LastIndex`
unfoldable pub last_index : Bytes → Bytes → Option ℕ
unfolding has_prefix
last_index [] sub = elim sub [ [] ↦ some 0 | _ ↦ none ]
last_index (x ∷ xs) sub = elim (last_index xs sub) [
  | some i ↦ some (suc i)
  | none ↦ if has_prefix (x ∷ xs) sub then some 0 else none
]

pub has_prefix-length : (s p : Bytes) → has_prefix s p ≡ true → length p ≤ length s
unfolding has_prefix
has_prefix-length s [] h = omega arith
has_prefix-length [] (y ∷ ys) h = ground arith
has_prefix-length (x ∷ xs) (y ∷ ys) h = ground (arith, has_prefix-length xs ys)

-- A match that is found ends inside the text.
pub last_index-le : (s sub : Bytes) (i : ℕ) → last_index s sub ≡ some i → i + length sub ≤ length s
unfolding last_index
last_index-le [] [] i h = ground arith
last_index-le [] (y ∷ ys) i h = ground arith
last_index-le (x ∷ xs) sub i h = elim (Option-cases (last_index xs sub)) [
  | inl e ↦ ground (arith, has_prefix-length (x ∷ xs) sub)
  | inr (j, e) ↦ ground (arith, last_index-le xs sub j)
]

-- `strings.Contains`
unfoldable pub contains : Bytes → Bytes → Bool
unfolding has_prefix
contains [] sub = has_prefix [] sub
contains (x ∷ xs) sub = has_prefix (x ∷ xs) sub || contains xs sub

-- `strings.ToLower`
abbrev lower_byte : ℕ → ℕ
lower_byte c = if leb b'A' c && leb c b'Z' then c + 32 else c

unfoldable pub to_lower : Bytes → Bytes
to_lower = map lower_byte

abbrev pub is_space : ℕ → Bool
is_space c = c == 32 || (leb 9 c && leb c 13)

-- `strings.TrimLeft` and `strings.TrimRight`, the cut set as a test.
unfoldable pub trim_left : (ℕ → Bool) → Bytes → Bytes
trim_left p [] = []
trim_left p (x ∷ xs) = if p x then trim_left p xs else x ∷ xs

unfoldable pub trim_right : (ℕ → Bool) → Bytes → Bytes
trim_right p [] = []
trim_right p (x ∷ xs) = elim (trim_right p xs) [
  | [] ↦ if p x then [] else x ∷ []
  | y ∷ ys ↦ x ∷ y ∷ ys
]

-- `strings.TrimSpace`
unfoldable pub trim_space : Bytes → Bytes
unfolding trim_left trim_right
trim_space s = trim_right is_space (trim_left is_space s)

pub length-trim_right-le : (p : ℕ → Bool) (xs : Bytes) → length (trim_right p xs) ≤ length xs
unfolding trim_right
length-trim_right-le p [] = omega arith
length-trim_right-le p (x ∷ xs) = ground (arith, length-trim_right-le p xs)

-- Trimming removes nothing but bytes of the cut set.
pub keep_if-trim_right :
    (p : ℕ → Bool) (xs : Bytes)
    → keep_if (λ c. not (p c)) (trim_right p xs) ≡ keep_if (λ c. not (p c)) xs
unfolding trim_right
keep_if-trim_right p [] = refl
keep_if-trim_right p (x ∷ xs) = ground (arith, keep_if-trim_right p xs)
