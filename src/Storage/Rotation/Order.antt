-- ===== src/Storage/Rotation/Order.antt =====
-- The order of the cursor.
use gogoclaw.Base.{
  ℕ, ◌≡◌, refl, inl, inr, arith, true, false, Option, none, some, [], ◌∷◌, Option-cases,
}
use gogoclaw.Base.Bytes.{Bytes}
use gogoclaw.Storage.Messages.{StoredMessage}
use gogoclaw.Storage.Rotation.Statements.{Datetime, Cursor, cursor_of, bytes_lt, after, before}

bytes_lt_irrefl : (xs : Bytes) → bytes_lt xs xs ≡ false
unfolding bytes_lt
bytes_lt_irrefl [] = refl
bytes_lt_irrefl (x ∷ xs) = ground (arith, bytes_lt_irrefl xs)

bytes_lt_trans :
    (xs ys zs : Bytes) → bytes_lt xs ys ≡ true → bytes_lt ys zs ≡ true → bytes_lt xs zs ≡ true
unfolding bytes_lt
bytes_lt_trans [] [] zs a b = ground (arith, a)
bytes_lt_trans [] (y ∷ ys) [] a b = ground (arith, b)
bytes_lt_trans [] (y ∷ ys) (z ∷ zs) a b = refl
bytes_lt_trans (x ∷ xs) [] zs a b = ground (arith, a)
bytes_lt_trans (x ∷ xs) (y ∷ ys) [] a b = ground (arith, b)
bytes_lt_trans (x ∷ xs) (y ∷ ys) (z ∷ zs) a b = ground (arith, bytes_lt_trans xs ys zs)

-- Of two texts that are in neither order, each is the other.
pub bytes_lt_total : (xs ys : Bytes) → bytes_lt xs ys ≡ false → bytes_lt ys xs ≡ false → xs ≡ ys
unfolding bytes_lt
bytes_lt_total [] [] a b = refl
bytes_lt_total [] (y ∷ ys) a b = ground (arith, a)
bytes_lt_total (x ∷ xs) [] a b = ground (arith, b)
bytes_lt_total (x ∷ xs) (y ∷ ys) a b = ground (arith, bytes_lt_total xs ys)

-- Where both texts of a time are read, the same time is read of both.
abbrev pub IsAgreeing : Datetime → Type 0
IsAgreeing datetime = (t x y : ℕ) → datetime.stored t ≡ some x → datetime.scanned t ≡ some y → x ≡ y

module _ (datetime : Datetime) (agrees : IsAgreeing datetime) where
  -- No message is after itself.
  pub after_irrefl : (m : StoredMessage) → after datetime (some (cursor_of m)) m ≡ false
  unfolding after
  after_irrefl m = elim (Option-cases (datetime.stored m.created_at)) [
    | inl e ↦ rw (e, after) refl
    | inr (x, e) ↦ elim (Option-cases (datetime.scanned m.created_at)) [
      | inl f ↦ rw (e, after, f) refl
      | inr (y, f) ↦
          let same = agrees m.created_at x y e f in ground (arith, e, f, same, bytes_lt_irrefl m.id)
    ]
  ]

  pub after_trans :
      (c : Option Cursor) (l m : StoredMessage)
      → after datetime c l ≡ true
      → after datetime (some (cursor_of l)) m ≡ true
      → after datetime c m ≡ true
  unfolding after
  after_trans none l m a b = refl
  after_trans (some c) l m a b = elim (Option-cases (datetime.stored m.created_at)) [
    | inl e ↦ absurd (ground (arith, b, e))
    | inr (x, e) ↦ elim (Option-cases (datetime.scanned l.created_at)) [
      | inl e1 ↦ absurd (ground (arith, b, e, e1))
      | inr (y, e1) ↦ elim (Option-cases (datetime.stored l.created_at)) [
        | inl e2 ↦ absurd (ground (arith, a, e2))
        | inr (z, e2) ↦ elim (Option-cases (datetime.scanned c.created_at)) [
          | inl e3 ↦ absurd (ground (arith, a, e2, e3))
          | inr (u, e3) ↦
              let same = agrees l.created_at z y e2 e1 in
              ground (arith, a, b, e, e1, e2, e3, same, bytes_lt_trans c.id l.id m.id)
        ]
      ]
    ]
  ]

bytes_lt_cotrans :
    (xs ys zs : Bytes) → bytes_lt xs ys ≡ false → bytes_lt ys zs ≡ false → bytes_lt xs zs ≡ false
unfolding bytes_lt
bytes_lt_cotrans [] [] zs a b = b
bytes_lt_cotrans [] (y ∷ ys) zs a b = ground (arith, a)
bytes_lt_cotrans (x ∷ xs) [] [] a b = refl
bytes_lt_cotrans (x ∷ xs) [] (z ∷ zs) a b = ground (arith, b)
bytes_lt_cotrans (x ∷ xs) (y ∷ ys) [] a b = refl
bytes_lt_cotrans (x ∷ xs) (y ∷ ys) (z ∷ zs) a b = ground (arith, bytes_lt_cotrans xs ys zs)

pub before_cotrans :
    (l m n : StoredMessage) → before l m ≡ false → before m n ≡ false → before l n ≡ false
unfolding before
before_cotrans l m n a b = ground (arith, bytes_lt_cotrans l.id m.id n.id)

pub before_asym : (l m : StoredMessage) → before l m ≡ true → before m l ≡ false
unfolding before
before_asym l m a = ground (arith, bytes_lt_trans l.id m.id l.id, bytes_lt_irrefl l.id)

pub before_total : (l m : StoredMessage) → before l m ≡ false → before m l ≡ false → l.id ≡ m.id
unfolding before
before_total l m a b = ground (arith, bytes_lt_total l.id m.id)
