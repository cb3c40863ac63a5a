-- ===== src/Pii/Luhn/Laws.antt =====
-- The Luhn test finds every single wrong digit.
use mathlib.Core.List.{reverse, reverse-append, reverse-cons, append_assoc}
use gogoclaw.Base.{
  ℕ, ◌+◌, ◌%◌, ◌≤◌, ◌≡◌, ◌≢◌, Bool-cases, inl, inr, ap, ◌∙◌, arith, Bool, true, false, not, [], ◌∷◌,
  ◌++◌, ==_iff,
}
use gogoclaw.Base.Bytes.{Bytes}
use gogoclaw.Pii.Luhn.{share, is_digit, luhn_loop, luhn_valid}

-- The sum of a run of digits, and the parity behind it.
weight : Bytes → Bool → ℕ
weight [] alt = 0
weight (d ∷ ds) alt = share alt d + weight ds (not alt)

after : Bytes → Bool → Bool
after [] alt = alt
after (d ∷ ds) alt = after ds (not alt)

luhn_loop-weight : (ds : Bytes) (alt : Bool) (sum : ℕ) → luhn_loop ds alt sum ≡ sum + weight ds alt
unfolding luhn_loop weight
luhn_loop-weight [] alt sum = omega arith
luhn_loop-weight (d ∷ ds) alt sum = luhn_loop-weight ds (not alt) (sum + share alt d) ∙ omega arith

weight-append :
    (xs ys : Bytes) (alt : Bool) → weight (xs ++ ys) alt ≡ weight xs alt + weight ys (after xs alt)
unfolding weight after
weight-append [] ys alt = omega arith
weight-append (x ∷ xs) ys alt = omega (arith, weight-append xs ys (not alt))

share_lt_ten : (alt : Bool) (d : ℕ) → is_digit d ≡ true → share alt d ≤ 9
share_lt_ten alt d h = ground arith

share_injective :
    (alt : Bool) (a b : ℕ)
    → is_digit a ≡ true
    → is_digit b ≡ true
    → share alt a ≡ share alt b
    → a ≡ b
share_injective alt a b h k e = ground arith

reverse_middle : (xs ys : Bytes) (a : ℕ) → reverse (xs ++ (a ∷ ys)) ≡ reverse ys ++ (a ∷ reverse xs)
reverse_middle xs ys a =
    reverse-append xs (a ∷ ys)
    ∙ ap (λ l. l ++ reverse xs) (reverse-cons a ys)
    ∙ append_assoc (reverse ys) (a ∷ []) (reverse xs)

-- The sum, with the digit `a` singled out.
sum_middle :
    (xs ys : Bytes) (a : ℕ)
    → luhn_loop (reverse (xs ++ (a ∷ ys))) false 0
      ≡ weight (reverse ys) false
        + (share (after (reverse ys) false) a
            + weight (reverse xs) (not (after (reverse ys) false)))
unfolding weight
sum_middle xs ys a = rw (reverse_middle xs ys a) (
    omega (
      arith,
      luhn_loop-weight (reverse ys ++ (a ∷ reverse xs)) false 0,
      weight-append (reverse ys) (a ∷ reverse xs) false,
    ))

-- Of two numbers that differ in one digit, one at most passes the test.
pub luhn_valid_single_digit :
    (xs ys : Bytes) (a b : ℕ)
    → is_digit a ≡ true
    → is_digit b ≡ true
    → luhn_valid (xs ++ (a ∷ ys)) ≡ true
    → luhn_valid (xs ++ (b ∷ ys)) ≡ true
    → a ≡ b
unfolding luhn_valid
luhn_valid_single_digit xs ys a b h k p q =
    let alt = after (reverse ys) false in
    share_injective alt a b h k (
      omega (
        arith,
        sum_middle xs ys a,
        sum_middle xs ys b,
        (==_iff (luhn_loop (reverse (xs ++ (a ∷ ys))) false 0 % 10) 0).0 p,
        (==_iff (luhn_loop (reverse (xs ++ (b ∷ ys))) false 0 % 10) 0).0 q,
        share_lt_ten alt a h,
        share_lt_ten alt b k,
      ))

-- A number that passes the Luhn check fails it as soon as one of its digits is another digit.
pub luhn_valid_altered :
    (xs ys : Bytes) (a b : ℕ)
    → is_digit a ≡ true
    → is_digit b ≡ true
    → a ≢ b
    → luhn_valid (xs ++ (a ∷ ys)) ≡ true
    → luhn_valid (xs ++ (b ∷ ys)) ≡ false
luhn_valid_altered xs ys a b h k ne p = elim (Bool-cases (luhn_valid (xs ++ (b ∷ ys)))) [
  | inl q ↦ absurd (ne (luhn_valid_single_digit xs ys a b h k p q))
  | inr q ↦ q
]
