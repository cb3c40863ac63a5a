-- ===== src/Storage/Rotation/Select.antt =====
-- The rows that a statement selects are rows of the table.
use mathlib.Core.List.{Memᴰ}
use mathlib.Core.List.Memᴰ
use gogoclaw.Base.{
  refl, ℕ, zero, suc, ◌⊎◌, ◌≡◌, sym, ap, ◌∙◌, inl, inr, arith, Bool, true, not, ◌&&◌, List, [], ◌∷◌,
  take, keep_if, Bool-cases, if◌then◌else◌,
}
use gogoclaw.Storage.Messages.{StoredMessage, Row}
use gogoclaw.Storage.Rotation.Statements.{
  Table, last_of, insert, order_by, select_rows, rotation_batch_size, before,
}

take-Mem {ℓ} : {A : Type ℓ} (n : ℕ) (xs : List A) (x : A) → Memᴰ x (take n xs) → Memᴰ x xs
take-Mem zero xs x m = elim m [ ]
take-Mem (suc n) [] x m = elim m [ ]
take-Mem (suc n) (y ∷ ys) x (Memᴰ.head e) = Memᴰ.head e
take-Mem (suc n) (y ∷ ys) x (Memᴰ.tail m) = Memᴰ.tail (take-Mem n ys x m)

keep_if-Mem {ℓ} :
    {A : Type ℓ} (p : A → Bool) (xs : List A) (x : A)
    → Memᴰ x (keep_if p xs)
    → Memᴰ x xs × (p x ≡ true)
keep_if-Mem p [] x m = elim m [ ]
keep_if-Mem p (y ∷ ys) x m = elim (Bool-cases (p y)) [
  | inr e ↦ let found = keep_if-Mem p ys x ((rw (e, keep_if) at m)) in (Memᴰ.tail found.0, found.1)
  | inl e ↦ elim (Memᴰ.cases_cons (rw (e, keep_if) at m)) [
    | inl same ↦ (Memᴰ.head same, ap p same ∙ e)
    | inr later ↦ let found = keep_if-Mem p ys x later in (Memᴰ.tail found.0, found.1)
  ]
]

insert-Mem :
    (m x : StoredMessage) (ns : List StoredMessage) → Memᴰ x (insert m ns) → (x ≡ m) ⊎ Memᴰ x ns
unfolding insert
insert-Mem m x [] i = Memᴰ.cases_cons i
insert-Mem m x (n ∷ ns) i = elim (Bool-cases (before n m)) [
  | inr e ↦ Memᴰ.cases_cons (rw e at i)
  | inl e ↦ elim (Memᴰ.cases_cons (rw e at i)) [
    | inl same ↦ inr (Memᴰ.head same)
    | inr later ↦ elim (insert-Mem m x ns later) [
      | inl same ↦ inl same
      | inr there ↦ inr (Memᴰ.tail there)
    ]
  ]
]

order_by-Mem : (x : StoredMessage) (ms : List StoredMessage) → Memᴰ x (order_by ms) → Memᴰ x ms
unfolding order_by
order_by-Mem x [] i = i
order_by-Mem x (m ∷ ms) i = elim (insert-Mem m x (order_by ms) i) [
  | inl same ↦ Memᴰ.head same
  | inr later ↦ Memᴰ.tail (order_by-Mem x ms later)
]

and_left : (a b : Bool) → a && b ≡ true → a ≡ true
and_left a b h = ground (arith, h)

and_right : (a b : Bool) → a && b ≡ true → b ≡ true
and_right a b h = ground (arith, h)

has_flag : (flag b : Bool) → (if flag then b else not b) ≡ true → b ≡ flag
has_flag flag b h = ground (arith, h)

pub select_rows-Mem :
    (flag : Bool) (test : StoredMessage → Bool) (t : Table) (m : StoredMessage)
    → Memᴰ m (select_rows flag test t)
    → (r : Row) × Memᴰ r t × (r.message ≡ m) × (r.encrypted ≡ flag) × (test m ≡ true)
unfolding select_rows
select_rows-Mem flag test t m i =
    let wanted : Row → Bool =
      λ r. (if flag then r.encrypted else not r.encrypted) && test r.message in
    let (r, found, same) =
      Memᴰ.of_map (λ (r : Row). r.message) (keep_if wanted t)
        (order_by-Mem m _ (take-Mem rotation_batch_size _ m i)) in
    let (inside, passed) = keep_if-Mem wanted t r found in
    (
      r,
      inside,
      same,
      has_flag flag r.encrypted
          (and_left (if flag then r.encrypted else not r.encrypted) (test r.message) passed),
      ap test (sym same)
          ∙ and_right (if flag then r.encrypted else not r.encrypted) (test r.message) passed,
    )

pub last_of-Mem : (m : StoredMessage) (ms : List StoredMessage) → Memᴰ (last_of m ms) (m ∷ ms)
last_of-Mem m [] = Memᴰ.head refl
last_of-Mem m (n ∷ ns) = Memᴰ.tail (last_of-Mem n ns)
