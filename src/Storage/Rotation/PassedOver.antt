-- ===== src/Storage/Rotation/PassedOver.antt =====
-- Which rows the cursor of the first pass never reaches.
use mathlib.Core.List.{Memᴰ}
use gogoclaw.Base.{
  ℕ, ◌<◌, ◌≡◌, ◌⊎◌, ◌&&◌, ◌||◌, inl, inr, arith, true, false, ltb, ◌==◌, none, some, Option-cases,
  Bool-cases, subst, sym, [], ◌↔◌,
}
use gogoclaw.Base.Bytes.{Bytes}
use gogoclaw.Storage.Encryption.{Crypto}
use gogoclaw.Storage.Messages.{StoredMessage, Row}
use gogoclaw.Storage.Rotation.Statements.{
  Datetime, Sealed, Table, cursor_of, bytes_lt, after, before,
}
use gogoclaw.Storage.Rotation.Kept.{IsKept, IsMoved}

-- The order of `ORDER BY created_at ASC, id ASC`.
abbrev pub Precedes : StoredMessage → StoredMessage → Type 0
Precedes l m =
    (l.created_at < m.created_at) ⊎ ((l.created_at ≡ m.created_at) × (bytes_lt l.id m.id ≡ true))

-- `datetime` reads no time of what is scanned of the first or of the second's text, an earlier one
-- of the second, or the same of both and the second's id is not the greater.
abbrev pub IsNoLater : Datetime → StoredMessage → StoredMessage → Type 0
IsNoLater datetime l m =
    (datetime.scanned l.created_at ≡ none)
    ⊎ (datetime.stored m.created_at ≡ none)
    ⊎ ((x : ℕ) × (y : ℕ) × (datetime.scanned l.created_at ≡ some x)
        × (datetime.stored m.created_at ≡ some y)
        × ((y < x) ⊎ ((y ≡ x) × (bytes_lt l.id m.id ≡ false))))

-- A row of the table is read before the message and, by what `datetime` reads, the message does
-- not come after it.
abbrev pub IsPassedOver : Datetime → Table → StoredMessage → Type 0
IsPassedOver datetime t m =
    (l : Row) × Memᴰ l t × Precedes l.message m × IsNoLater datetime l.message m

before-Precedes : (l m : StoredMessage) → before l m ≡ true → Precedes l m
unfolding before
before-Precedes l m h = elim (Bool-cases (ltb l.created_at m.created_at)) [
  | inl e ↦ inl (ground (arith, e))
  | inr e ↦ inr (ground (arith, h, e), ground (arith, h, e))
]

no_later :
    (x y : ℕ) (l m : StoredMessage)
    → (ltb x y || y == x && bytes_lt l.id m.id) ≡ false
    → (y < x) ⊎ ((y ≡ x) × (bytes_lt l.id m.id ≡ false))
no_later x y l m h = elim (Bool-cases (ltb y x)) [
  | inl e ↦ inl (ground (arith, e))
  | inr e ↦ inr (ground (arith, h, e), ground (arith, h, e))
]

after-IsNoLater :
    (datetime : Datetime) (l m : StoredMessage)
    → after datetime (some (cursor_of l)) m ≡ false
    → IsNoLater datetime l m
unfolding after
after-IsNoLater datetime l m h = elim (Option-cases (datetime.stored m.created_at)) [
  | inl e ↦ inr (inl e)
  | inr (y, e) ↦ elim (Option-cases (datetime.scanned l.created_at)) [
    | inl f ↦ inl f
    | inr (x, f) ↦ inr (inr (x, y, f, e, no_later x y l m (rw (e, after, f, after) at h)))
  ]
]

module _ (C : Crypto) (old new : Bytes) where
  -- The order looks at nothing that a pass changes.
  pub passed-IsPassedOver :
      (datetime : Datetime) (t : Table) (l0 l : Row) (m : StoredMessage)
      → Memᴰ l0 t
      → IsKept C old new l0 l
      → before l.message m ≡ true
      → after datetime (some (cursor_of l.message)) m ≡ false
      → IsPassedOver datetime t m
  passed-IsPassedOver datetime t l0 l m i from_l h past =
      let none_new : Sealed = record { content = []; tool_calls = [] } in
      let here : Precedes l.message m × IsNoLater datetime l.message m =
        (before-Precedes l.message m h, after-IsNoLater datetime l.message m past) in
      let there =
        subst (λ (x : Row). Precedes x.message m × IsNoLater datetime x.message m)
          (from_l.others none_new) here in
      (l0, i, there.0, there.1)

  pub IsKept-IsPassedOver :
      (datetime : Datetime) (t : Table) (x y : Row)
      → IsKept C old new x y
      → IsPassedOver datetime t y.message ↔ IsPassedOver datetime t x.message
  IsKept-IsPassedOver datetime t x y kept =
      let none_new : Sealed = record { content = []; tool_calls = [] } in
      let same = kept.others none_new in
      (
        subst (λ (r : Row). IsPassedOver datetime t r.message) same,
        subst (λ (r : Row). IsPassedOver datetime t r.message) (sym same),
      )

  -- A row under the new key with all that was read of it, or one that is encrypted and as
  -- readable as before, and that the first pass did not reach.
  abbrev pub IsRekeyed : Datetime → Table → Row → Row → Type 0
  IsRekeyed datetime t x y =
      IsMoved C old new x y
      ⊎ ((y.encrypted ≡ true) × IsKept C old new x y × IsPassedOver datetime t x.message)
