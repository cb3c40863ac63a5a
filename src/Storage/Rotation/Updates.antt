-- ===== src/Storage/Rotation/Updates.antt =====
-- What an update of one row does to a table in which its id is unique.
use mathlib.Core.List.{Memᴰ}
use gogoclaw.Base.{◌≡◌, ap, ◌∙◌}
use gogoclaw.Base.Bytes.{Bytes}
use gogoclaw.Storage.Encryption.{Crypto}
use gogoclaw.Storage.Messages.{StoredMessage, Row}
use gogoclaw.Storage.Rotation.Statements.{Table, Sealed, overwrite, update_row}
use gogoclaw.Storage.Rotation.Kept.{IsKept, IsKept-id, IsUnderNew}
use gogoclaw.Storage.Rotation.Tables.{Zip, Zip-mono, update_row-Zip, IsKeyed, IsKeyed-unique}

module _ (C : Crypto) (old new : Bytes) where
  -- As before, and under the new key where the id is that of a message worked on.
  abbrev pub Rotated : StoredMessage → Row → Row → Type 0
  Rotated n x y = IsKept C old new x y × (x.message.id ≡ n.id → IsUnderNew C old new y)

  -- A row that stands for every row with its id.
  module _ (t : Table) (keyed : IsKeyed t) (r : Row) (inside : Memᴰ r t) where
    overwritten :
        (s : Sealed) (x y : Row)
        → Memᴰ x t
        → x.message.id ≡ r.message.id
        → IsKept C old new x y
        → (x ≡ r) × (overwrite s y ≡ overwrite s r)
    overwritten s x y i same kept =
        let is = IsKeyed-unique t x r keyed i inside same in
        (is, kept.others s ∙ ap (overwrite s) is)

    -- An update that keeps this row keeps the table.
    pub update-Kept :
        (s : Sealed) (u : Table)
        → IsKept C old new r (overwrite s r)
        → Zip (IsKept C old new) t u
        → Zip (IsKept C old new) t (update_row r.message.id s u)
    update-Kept s u k z =
        update_row-Zip (IsKept C old new) (IsKept C old new) r.message.id s t u
          (IsKept-id C old new)
          (λ x y i same kept. let (is, now) = overwritten s x y i same kept in rw now (rw is k))
          (λ x y other kept. kept) z

    -- One that brings this row under the new key keeps what other messages reached, too.
    module _ (s : Sealed) (u : Table)
        (k : IsKept C old new r (overwrite s r) × IsUnderNew C old new (overwrite s r)) where
      hit :
          (n : StoredMessage) (x y : Row)
          → Memᴰ x t
          → x.message.id ≡ r.message.id
          → IsKept C old new x y
          → Rotated n x (overwrite s y)
      hit n x y i same kept =
          let (is, now) = overwritten s x y i same kept in rw now ((rw is k.0), λ e. k.1)

      pub update-Rotated :
          Zip (IsKept C old new) t u → Zip (Rotated r.message) t (update_row r.message.id s u)
      update-Rotated z =
          update_row-Zip (IsKept C old new) (Rotated r.message) r.message.id s t u
            (IsKept-id C old new) (hit r.message) (λ x y other kept. (kept, λ e. absurd (other e)))
            z

      pub update-others :
          (n : StoredMessage)
          → Zip (Rotated n) t u
          → Zip (Rotated n) t (update_row r.message.id s u)
      update-others n d =
          update_row-Zip (Rotated n) (Rotated n) r.message.id s t u
            (λ x y k. IsKept-id C old new x y k.0) (λ x y i same k. hit n x y i same k.0)
            (λ x y other k. k) d

    -- A row that is passed over.
    pub pass-Rotated :
        (u : Table)
        → IsUnderNew C old new r
        → Zip (IsKept C old new) t u
        → Zip (Rotated r.message) t u
    pass-Rotated u under z =
        Zip-mono (IsKept C old new) (Rotated r.message) t u
          (λ x y i kept. (
            kept,
            λ e. (
              under.0,
              kept.new_reads under.0 (rw (IsKeyed-unique t x r keyed i inside e) under.1),
            ),
          ))
          z
