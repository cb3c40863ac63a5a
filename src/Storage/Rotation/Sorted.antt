-- ===== src/Storage/Rotation/Sorted.antt =====
-- What the order and the limit of a statement leave of the rows it asks for.
use mathlib.Core.List.{Memᴰ}
use mathlib.Core.List.Memᴰ
use gogoclaw.Base.{
  ℕ, zero, suc, ◌≡◌, ◌≢◌, refl, sym, ap, ◌∙◌, ◌⊎◌, inl, inr, arith, Bool, true, false, List, [],
  ◌∷◌, map, take, drop, keep_if, not, ◌&&◌, All, if◌then◌else◌, Bool-cases,
}
use gogoclaw.Storage.Messages.{StoredMessage, Row}
use gogoclaw.Storage.Rotation.Statements.{
  Table, last_of, before, insert, order_by, select_rows, rotation_batch_size,
}
use gogoclaw.Storage.Rotation.Order.{before_asym, before_cotrans}

-- No message is before one that it follows.
abbrev IsSorted : List StoredMessage → Type 0
IsSorted [] = Unit {0}
IsSorted (m ∷ ms) = All (λ n. before n m ≡ false) ms × IsSorted ms

All-mono :
    (P Q : StoredMessage → Type 0) (ms : List StoredMessage)
    → ((m : StoredMessage) → P m → Q m)
    → All P ms
    → All Q ms
All-mono P Q [] h a = tt
All-mono P Q (m ∷ ms) h a = (h m a.0, All-mono P Q ms h a.1)

All-insert :
    (P : StoredMessage → Type 0) (m : StoredMessage) (ns : List StoredMessage)
    → P m
    → All P ns
    → All P (insert m ns)
unfolding insert
All-insert P m [] h a = (h, tt)
All-insert P m (n ∷ ns) h a = elim (Bool-cases (before n m)) [
  | inl e ↦ rw (e, insert) (a.0, All-insert P m ns h a.1)
  | inr e ↦ rw (e, insert) (h, a)
]

insert-IsSorted :
    (m : StoredMessage) (ns : List StoredMessage) → IsSorted ns → IsSorted (insert m ns)
unfolding insert
insert-IsSorted m [] s = (tt, tt)
insert-IsSorted m (n ∷ ns) s = elim (Bool-cases (before n m)) [
  | inl e ↦
      rw (e, insert)
        (
          All-insert (λ x. before x n ≡ false) m ns (before_asym n m e) s.0,
          insert-IsSorted m ns s.1,
        )
  | inr e ↦
      rw (e, insert)
        (
          (
            e,
            All-mono (λ x. before x n ≡ false) (λ x. before x m ≡ false) ns
                (λ x h. before_cotrans x n m h e) s.0,
          ),
          s,
        )
]

order_by-IsSorted : (ms : List StoredMessage) → IsSorted (order_by ms)
unfolding order_by
order_by-IsSorted [] = tt
order_by-IsSorted (m ∷ ms) = insert-IsSorted m (order_by ms) (order_by-IsSorted ms)

insert-Mem-head : (m : StoredMessage) (ns : List StoredMessage) → Memᴰ m (insert m ns)
unfolding insert
insert-Mem-head m [] = Memᴰ.head refl
insert-Mem-head m (n ∷ ns) = elim (Bool-cases (before n m)) [
  | inl e ↦ rw (e, insert) (Memᴰ.tail (insert-Mem-head m ns))
  | inr e ↦ rw (e, insert) (Memᴰ.head refl)
]

insert-Mem-tail : (m x : StoredMessage) (ns : List StoredMessage) → Memᴰ x ns → Memᴰ x (insert m ns)
unfolding insert
insert-Mem-tail m x [] i = elim i [ ]
insert-Mem-tail m x (n ∷ ns) i = elim (Bool-cases (before n m)) [
  | inr e ↦ rw (e, insert) (Memᴰ.tail i)
  | inl e ↦ elim (Memᴰ.cases_cons i) [
    | inl same ↦ rw (e, insert) (Memᴰ.head same)
    | inr later ↦ rw (e, insert) (Memᴰ.tail (insert-Mem-tail m x ns later))
  ]
]

Mem-order_by : (x : StoredMessage) (ms : List StoredMessage) → Memᴰ x ms → Memᴰ x (order_by ms)
unfolding order_by
Mem-order_by x [] i = i
Mem-order_by x (m ∷ ms) i = elim (Memᴰ.cases_cons i) [
  | inl same ↦ rw same (insert-Mem-head m (order_by ms))
  | inr later ↦ insert-Mem-tail m x (order_by ms) (Mem-order_by x ms later)
]

Mem-keep_if :
    (p : Row → Bool) (xs : List Row) (x : Row) → Memᴰ x xs → p x ≡ true → Memᴰ x (keep_if p xs)
Mem-keep_if p [] x i h = i
Mem-keep_if p (y ∷ ys) x i h = elim (Memᴰ.cases_cons i) [
  | inl same ↦ let e : p y ≡ true = ap p (sym same) ∙ h in rw (e, keep_if) (Memᴰ.head same)
  | inr later ↦ elim (Bool-cases (p y)) [
    | inl e ↦ rw (e, keep_if) (Memᴰ.tail (Mem-keep_if p ys x later h))
    | inr e ↦ rw (e, keep_if) (Mem-keep_if p ys x later h)
  ]
]

Mem-take-drop :
    (n : ℕ) (xs : List StoredMessage) (x : StoredMessage)
    → Memᴰ x xs
    → Memᴰ x (take n xs) ⊎ Memᴰ x (drop n xs)
Mem-take-drop zero xs x i = inr i
Mem-take-drop (suc n) [] x i = inr i
Mem-take-drop (suc n) (y ∷ ys) x i = elim (Memᴰ.cases_cons i) [
  | inl same ↦ inl (Memᴰ.head same)
  | inr later ↦ elim (Mem-take-drop n ys x later) [ inl a ↦ inl (Memᴰ.tail a) | inr b ↦ inr b ]
]

drop-Mem : (n : ℕ) (xs : List StoredMessage) (x : StoredMessage) → Memᴰ x (drop n xs) → Memᴰ x xs
drop-Mem zero xs x i = i
drop-Mem (suc n) [] x i = i
drop-Mem (suc n) (y ∷ ys) x i = Memᴰ.tail (drop-Mem n ys x i)

All-Mem :
    (P : StoredMessage → Type 0) (xs : List StoredMessage) (x : StoredMessage)
    → All P xs
    → Memᴰ x xs
    → P x
All-Mem P [] x a i = elim i [ ]
All-Mem P (y ∷ ys) x a (Memᴰ.head e) = rw e a.0
All-Mem P (y ∷ ys) x a (Memᴰ.tail i) = All-Mem P ys x a.1 i

-- What the limit cut off is not before the last message that it left.
last-before :
    (n : ℕ) (xs : List StoredMessage) (m : StoredMessage) (ms : List StoredMessage)
    (y : StoredMessage)
    → IsSorted xs
    → take n xs ≡ m ∷ ms
    → Memᴰ y (drop n xs)
    → before y (last_of m ms) ≡ false
last-before zero xs m ms y s e i = cc
last-before (suc n) [] m ms y s e i = cc
last-before (suc n) (x ∷ xs) m [] y s e i =
    let same : x ≡ m = ground (arith, e) in
    rw (← same) (All-Mem (λ z. before z x ≡ false) xs y s.0 (drop-Mem n xs y i))
last-before (suc n) (x ∷ xs) m (k ∷ ks) y s e i = last-before n xs k ks y s.1 (ground (arith, e)) i

both : (flag b c : Bool) → b ≡ flag → c ≡ true → (if flag then b else not b) && c ≡ true
both flag b c e h = ground (arith, e, h)

-- A row that a statement asks for is in its batch, or is not before the last one there.
pub Mem-select_rows :
    (flag : Bool) (test : StoredMessage → Bool) (t : Table) (r : Row) (m : StoredMessage)
    (ms : List StoredMessage)
    → Memᴰ r t
    → r.encrypted ≡ flag
    → test r.message ≡ true
    → select_rows flag test t ≡ m ∷ ms
    → Memᴰ r.message (select_rows flag test t) ⊎ (before r.message (last_of m ms) ≡ false)
unfolding select_rows
Mem-select_rows flag test t r m ms i e p picked =
    let wanted : Row → Bool =
      λ r. (if flag then r.encrypted else not r.encrypted) && test r.message in
    let there = Mem-keep_if wanted t r i (both flag r.encrypted (test r.message) e p) in
    let all = map (λ (r : Row). r.message) (keep_if wanted t) in
    elim (Mem-take-drop rotation_batch_size (order_by all) r.message
      (Mem-order_by r.message all (Memᴰ.map (λ (r : Row). r.message) there))) [
        | inl a ↦ inl a
        | inr b ↦ inr (
            last-before rotation_batch_size (order_by all) m ms r.message (order_by-IsSorted all)
              picked b)
      ]

-- A statement that finds nothing asks for no row.
pub select_rows-none :
    (flag : Bool) (test : StoredMessage → Bool) (t : Table) (r : Row)
    → Memᴰ r t
    → r.encrypted ≡ flag
    → test r.message ≡ true
    → select_rows flag test t ≢ []
unfolding select_rows
select_rows-none flag test t r i e p none_left =
    let wanted : Row → Bool =
      λ r. (if flag then r.encrypted else not r.encrypted) && test r.message in
    let there = Mem-keep_if wanted t r i (both flag r.encrypted (test r.message) e p) in
    let all = map (λ (r : Row). r.message) (keep_if wanted t) in
    empty (order_by all) none_left
      (Mem-order_by r.message all (Memᴰ.map (λ (r : Row). r.message) there))
  where
    empty : (ms : List StoredMessage) → take rotation_batch_size ms ≡ [] → Memᴰ r.message ms → ⊥
    empty [] h i = elim i [ ]
    empty (m ∷ ms) h i = cc
