-- ===== src/Pii/Luhn.antt =====
-- The checks on a number's digits of internal/pii/classifier.go.
pub mod Laws
use mathlib.Core.List.{reverse}
use gogoclaw.Base.{
  ℕ, ◌+◌, ◌-◌, ◌*◌, ◌%◌, ◌==◌, ltb, leb, if◌then◌else◌, Bool, true, false, not, ◌&&◌, ◌||◌, List,
  [], ◌∷◌, length, take, drop, any_of, keep_if,
}
use gogoclaw.Base.Bytes.{Bytes}

abbrev pub is_digit : ℕ → Bool
is_digit c = leb b'0' c && leb c b'9'

-- One digit's share of the sum.
abbrev pub share : Bool → ℕ → ℕ
share alt d = let n = d - b'0' in if alt then (if ltb 9 (n * 2) then n * 2 - 9 else n * 2) else n

-- The loop from the last digit to the first.
luhn_loop : Bytes → Bool → ℕ → ℕ
luhn_loop [] alt sum = sum
luhn_loop (d ∷ ds) alt sum = luhn_loop ds (not alt) (sum + share alt d)

unfoldable pub luhn_valid : Bytes → Bool
unfolding luhn_loop
luhn_valid digits = luhn_loop (reverse digits) false 0 % 10 == 0

unfoldable pub verify_credit_card : Bytes → Bool
unfolding luhn_valid
verify_credit_card s =
    let digits = keep_if is_digit s in
    if ltb (length digits) 13 || ltb 19 (length digits) then false else luhn_valid digits

-- `strconv.Atoi` with its error dropped. A sign is not read: what reaches it here are digits.
value : ℕ → Bytes → ℕ
value acc [] = acc
value acc (d ∷ ds) = value (acc * 10 + (d - b'0')) ds

unfoldable pub atoi : Bytes → ℕ
unfolding value
atoi s = if any_of (λ c. not (is_digit c)) s then 0 else value 0 s

unfoldable pub verify_ssn : Bytes → Bool
unfolding atoi
verify_ssn s =
    let area = atoi (take 3 s) in
    if not (length s == 9)
    then false
    else if area == 0 || area == 666 || leb 900 area
    then false
    else if atoi (take 2 (drop 3 s)) == 0
    then false
    else not (atoi (drop 5 s) == 0)
