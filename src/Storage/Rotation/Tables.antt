-- ===== src/Storage/Rotation/Tables.antt =====
-- Tables related row by row, what a statement writes, and the rows of a batch.
use mathlib.Core.List.{Memᴰ}
use mathlib.Core.List.Memᴰ
use gogoclaw.Base.{◌≡◌, ◌≢◌, refl, sym, ap, ◌∙◌, inl, inr, arith, List, [], ◌∷◌, All, Bool-cases}
use gogoclaw.Base.Bytes.{Bytes, bytes_eq, bytes_eq_iff}
use gogoclaw.Base.Outcome.{Outcome, ok, Outcome-cases}
use gogoclaw.Storage.Messages.{StoredMessage, Row}
use gogoclaw.Storage.Rotation.Statements.{Table, Sealed, overwrite, update_row, each_row}
use gogoclaw.Storage.Rotation.Pages.{RotateError}

abbrev pub Zip : (Row → Row → Type 0) → Table → Table → Type 0
Zip R [] [] = Unit {0}
Zip R (x ∷ xs) (y ∷ ys) = R x y × Zip R xs ys
Zip R _ _ = ⊥

pub Zip-refl : (R : Row → Row → Type 0) → ((r : Row) → R r r) → (t : Table) → Zip R t t
Zip-refl R h [] = tt
Zip-refl R h (x ∷ xs) = (h x, Zip-refl R h xs)

pub Zip-trans :
    (R : Row → Row → Type 0)
    → ((x y z : Row) → R x y → R y z → R x z)
    → (t u v : Table) → Zip R t u
    → Zip R u v
    → Zip R t v
Zip-trans R h [] [] [] a b = tt
Zip-trans R h (x ∷ xs) (y ∷ ys) (z ∷ zs) a b = (h x y z a.0 b.0, Zip-trans R h xs ys zs a.1 b.1)
Zip-trans R h [] [] (z ∷ zs) a b = absurd b
Zip-trans R h [] (y ∷ ys) v a b = absurd a
Zip-trans R h (x ∷ xs) [] v a b = absurd a
Zip-trans R h (x ∷ xs) (y ∷ ys) [] a b = absurd b

pub Zip-mono :
    (R R' : Row → Row → Type 0) (t u : Table)
    → ((x y : Row) → Memᴰ x t → R x y → R' x y)
    → Zip R t u
    → Zip R' t u
Zip-mono R R' [] [] h a = tt
Zip-mono R R' (x ∷ xs) (y ∷ ys) h a =
    (h x y (Memᴰ.head refl) a.0, Zip-mono R R' xs ys (λ x' y' m. h x' y' (Memᴰ.tail m)) a.1)
Zip-mono R R' [] (y ∷ ys) h a = absurd a
Zip-mono R R' (x ∷ xs) [] h a = absurd a

pub Zip-right :
    (R R' : Row → Row → Type 0) (t u : Table)
    → ((x y : Row) → Memᴰ y u → R x y → R' x y)
    → Zip R t u
    → Zip R' t u
Zip-right R R' [] [] h a = tt
Zip-right R R' (x ∷ xs) (y ∷ ys) h a =
    (h x y (Memᴰ.head refl) a.0, Zip-right R R' xs ys (λ x' y' m. h x' y' (Memᴰ.tail m)) a.1)
Zip-right R R' [] (y ∷ ys) h a = absurd a
Zip-right R R' (x ∷ xs) [] h a = absurd a

pub Zip-Mem :
    (R : Row → Row → Type 0) (t u : Table) (y : Row)
    → Zip R t u
    → Memᴰ y u
    → (x : Row) × Memᴰ x t × R x y
Zip-Mem R (x ∷ xs) (z ∷ zs) y a (Memᴰ.head e) = (x, Memᴰ.head refl, rw e a.0)
Zip-Mem R (x ∷ xs) (z ∷ zs) y a (Memᴰ.tail m) =
    let (w, h, r) = Zip-Mem R xs zs y a.1 m in (w, Memᴰ.tail h, r)
Zip-Mem R [] (z ∷ zs) y a m = absurd a
Zip-Mem R [] [] y a m = elim m [ ]
Zip-Mem R (x ∷ xs) [] y a m = absurd a

-- An update changes the rows with its id.
pub update_row-Zip :
    (R R' : Row → Row → Type 0) (id : Bytes) (s : Sealed) (t u : Table)
    → ((x y : Row) → R x y → y.message.id ≡ x.message.id)
    → ((x y : Row) → Memᴰ x t → x.message.id ≡ id → R x y → R' x (overwrite s y))
    → ((x y : Row) → x.message.id ≢ id → R x y → R' x y)
    → Zip R t u
    → Zip R' t (update_row id s u)
unfolding update_row
update_row-Zip R R' id s [] [] ids hit miss a = tt
update_row-Zip R R' id s [] (y ∷ ys) ids hit miss a = absurd a
update_row-Zip R R' id s (x ∷ xs) [] ids hit miss a = absurd a
update_row-Zip R R' id s (x ∷ xs) (y ∷ ys) ids hit miss a = (
  elim (Bool-cases (bytes_eq y.message.id id)) [
    | inl e ↦
        rw e (hit x y (Memᴰ.head refl) (sym (ids x y a.0) ∙ (bytes_eq_iff y.message.id id).0 e) a.0)
    | inr e ↦
        rw e
          (miss x y (λ same. ground (arith, bytes_eq_iff y.message.id id, ids x y a.0, same)) a.0)
  ],
  update_row-Zip R R' id s xs ys ids (λ x' y' m. hit x' y' (Memᴰ.tail m)) miss a.1,
)

-- No two rows have the same id, which is the table's primary key.
abbrev pub IsKeyed : Table → Type 0
IsKeyed [] = Unit {0}
IsKeyed (r ∷ rs) = All (λ (s : Row). s.message.id ≢ r.message.id) rs × IsKeyed rs

All-Mem {ℓ} : {A : Type ℓ} (P : A → Type 0) (xs : List A) (x : A) → All P xs → Memᴰ x xs → P x
All-Mem P [] x a m = elim m [ ]
All-Mem P (y ∷ ys) x a (Memᴰ.head e) = rw e a.0
All-Mem P (y ∷ ys) x a (Memᴰ.tail m) = All-Mem P ys x a.1 m

pub IsKeyed-unique :
    (t : Table) (r s : Row) → IsKeyed t → Memᴰ r t → Memᴰ s t → r.message.id ≡ s.message.id → r ≡ s
IsKeyed-unique [] r s k m n same = elim m [ ]
IsKeyed-unique (x ∷ xs) r s k (Memᴰ.head e) (Memᴰ.head f) same = e ∙ sym f
IsKeyed-unique (x ∷ xs) r s k (Memᴰ.head e) (Memᴰ.tail m) same = absurd (
    All-Mem (λ (s : Row). s.message.id ≢ x.message.id) xs s k.0 m
      (sym same ∙ ap (λ (r : Row). r.message.id) e))
IsKeyed-unique (x ∷ xs) r s k (Memᴰ.tail m) (Memᴰ.head f) same = absurd (
    All-Mem (λ (s : Row). s.message.id ≢ x.message.id) xs r k.0 m
      (same ∙ ap (λ (r : Row). r.message.id) f))
IsKeyed-unique (x ∷ xs) r s k (Memᴰ.tail m) (Memᴰ.tail n) same = IsKeyed-unique xs r s k.1 m n same

Zip-fresh :
    (R : Row → Row → Type 0) (id : Bytes) (t u : Table)
    → ((x y : Row) → R x y → y.message.id ≡ x.message.id)
    → Zip R t u
    → All (λ (s : Row). s.message.id ≢ id) t
    → All (λ (s : Row). s.message.id ≢ id) u
Zip-fresh R id [] [] ids z a = tt
Zip-fresh R id [] (y ∷ ys) ids z a = absurd z
Zip-fresh R id (x ∷ xs) [] ids z a = absurd z
Zip-fresh R id (x ∷ xs) (y ∷ ys) ids z a =
    (λ e. a.0 (sym (ids x y z.0) ∙ e), Zip-fresh R id xs ys ids z.1 a.1)

pub Zip-IsKeyed :
    (R : Row → Row → Type 0) (t u : Table)
    → ((x y : Row) → R x y → y.message.id ≡ x.message.id)
    → Zip R t u
    → IsKeyed t
    → IsKeyed u
Zip-IsKeyed R [] [] ids z k = tt
Zip-IsKeyed R [] (y ∷ ys) ids z k = absurd z
Zip-IsKeyed R (x ∷ xs) [] ids z k = absurd z
Zip-IsKeyed R (x ∷ xs) (y ∷ ys) ids z k =
    (rw (ids x y z.0) (Zip-fresh R x.message.id xs ys ids z.1 k.0), Zip-IsKeyed R xs ys ids z.1 k.1)

-- What each message of a batch preserves, the batch preserves.
pub each_row-keeps {ℓ κ} :
    {P : Type ℓ} (step : StoredMessage → P → Outcome RotateError P) (Inv : P → Type κ)
    (ms : List StoredMessage) (p p' : P)
    → ((m : StoredMessage) (q q' : P) → Memᴰ m ms → step m q ≡ ok q' → Inv q → Inv q')
    → each_row step ms p ≡ ok p'
    → Inv p
    → Inv p'
unfolding each_row
each_row-keeps step Inv [] p p' keep h j = let e : p ≡ p' = ground (arith, h) in rw (← e) j
each_row-keeps step Inv (m ∷ ms) p p' keep h j = elim (Outcome-cases (step m p)) [
  | inr (x, e) ↦ absurd (ground (arith, h))
  | inl (q, e) ↦
      each_row-keeps step Inv ms q p' (λ n a b i. keep n a b (Memᴰ.tail i)) (ground (arith, h))
        (keep m p q (Memᴰ.head refl) e j)
]

-- What holds once a message was worked on and is preserved by the others holds at the end.
pub each_row-reaches {ℓ κ} :
    {P : Type ℓ} (step : StoredMessage → P → Outcome RotateError P) (Inv : P → Type κ)
    (D : StoredMessage → P → Type κ) (ms : List StoredMessage) (p p' : P)
    → ((m : StoredMessage) (q q' : P) → Memᴰ m ms → step m q ≡ ok q' → Inv q → Inv q' × D m q')
    → ((n m : StoredMessage) (q q' : P) → Memᴰ m ms → step m q ≡ ok q' → Inv q → D n q → D n q')
    → each_row step ms p ≡ ok p'
    → Inv p
    → (n : StoredMessage) → Memᴰ n ms
    → D n p'
unfolding each_row
each_row-reaches step Inv D [] p p' one other h j n i = elim i [ ]
each_row-reaches step Inv D (m ∷ ms) p p' one other h j n i = elim (Outcome-cases (step m p)) [
  | inr (x, e) ↦ absurd (ground (arith, h))
  | inl (q, e) ↦
      let rest : each_row step ms q ≡ ok p' = ground (arith, h) in
      let now = one m p q (Memᴰ.head refl) e j in
      elim (Memᴰ.cases_cons i) [
        | inl same ↦
            (each_row-keeps step (λ x. Inv x × D n x) ms q p'
              (λ k a b l s z.
                ((one k a b (Memᴰ.tail l) s z.0).0, other n k a b (Memᴰ.tail l) s z.0 z.1))
              rest (now.0, rw same now.1)).1
        | inr later ↦
            each_row-reaches step Inv D ms q p' (λ k a b l. one k a b (Memᴰ.tail l))
              (λ k l a b i'. other k l a b (Memᴰ.tail i')) rest now.0 n later
      ]
]
