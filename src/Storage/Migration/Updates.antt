-- ===== src/Storage/Migration/Updates.antt =====
-- What an update of plaintext rows does to a table.
use mathlib.Core.List.{Memᴰ}
use mathlib.Core.List.Memᴰ
use gogoclaw.Base.{
  ◌==◌, ◌≡◌, refl, sym, ◌∙◌, inl, inr, arith, Bool, true, false, not, ◌&&◌, [], ◌∷◌, Bool-cases,
}
use gogoclaw.Base.Bytes.{Bytes, bytes_eq, bytes_eq_iff}
use gogoclaw.Storage.Messages.{Row}
use gogoclaw.Storage.Rotation.Statements.{Table, Sealed, overwrite}
use gogoclaw.Storage.Rotation.Tables.{Zip}
use gogoclaw.Storage.Migration.{update_plain_row, count_plain}

pub update_plain_row-Zip :
    (R : Row → Row → Type 0) (id : Bytes) (s : Sealed) (t u : Table)
    → ((x y : Row) → R x y → y.message.id ≡ x.message.id)
    → ((x y : Row) → Memᴰ x t → x.message.id ≡ id → R x y → R x (overwrite s y))
    → Zip R t u
    → Zip R t (update_plain_row id s u)
unfolding update_plain_row
update_plain_row-Zip R id s [] [] ids hit a = tt
update_plain_row-Zip R id s [] (y ∷ ys) ids hit a = absurd a
update_plain_row-Zip R id s (x ∷ xs) [] ids hit a = absurd a
update_plain_row-Zip R id s (x ∷ xs) (y ∷ ys) ids hit a = (
  elim (Bool-cases (bytes_eq y.message.id id && not y.encrypted)) [
    | inl e ↦ rw e (
        hit x y (Memᴰ.head refl)
          (sym (ids x y a.0)
            ∙ (bytes_eq_iff y.message.id id).0
                (left (bytes_eq y.message.id id) (not y.encrypted) e))
          a.0)
    | inr e ↦ rw e a.0
  ],
  update_plain_row-Zip R id s xs ys ids (λ x' y' m. hit x' y' (Memᴰ.tail m)) a.1,
)
  where
    left : (a b : Bool) → a && b ≡ true → a ≡ true
    left a b h = ground (arith, h)

pub update_plain_row-Reached :
    (R R' : Row → Row → Type 0) (id : Bytes) (s : Sealed) (t u : Table)
    → ((x y : Row) → R x y → R' x (overwrite s y))
    → ((x y : Row) → bytes_eq y.message.id id && not y.encrypted ≡ false → R x y → R' x y)
    → Zip R t u
    → Zip R' t (update_plain_row id s u)
unfolding update_plain_row
update_plain_row-Reached R R' id s [] [] hit miss a = tt
update_plain_row-Reached R R' id s [] (y ∷ ys) hit miss a = absurd a
update_plain_row-Reached R R' id s (x ∷ xs) [] hit miss a = absurd a
update_plain_row-Reached R R' id s (x ∷ xs) (y ∷ ys) hit miss a = (
  elim (Bool-cases (bytes_eq y.message.id id && not y.encrypted)) [
    | inl e ↦ rw e (hit x y a.0)
    | inr e ↦ rw e (miss x y e a.0)
  ],
  update_plain_row-Reached R R' id s xs ys hit miss a.1,
)

pub was_encrypted :
    (y : Row) (id : Bytes)
    → y.message.id ≡ id
    → bytes_eq y.message.id id && not y.encrypted ≡ false
    → y.encrypted ≡ true
was_encrypted y id e h = ground (arith, h, (bytes_eq_iff y.message.id id).1 e)

pub no_plain : (t : Table) (r : Row) → Memᴰ r t → (count_plain t == 0) ≡ true → r.encrypted ≡ true
no_plain [] r i h = elim i [ ]
no_plain (x ∷ xs) r i h = elim (Memᴰ.cases_cons i) [
  | inl e ↦ rw e (ground (arith, h))
  | inr j ↦ no_plain xs r j (ground (arith, h))
]
