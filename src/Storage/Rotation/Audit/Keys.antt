-- ===== src/Storage/Rotation/Audit/Keys.antt =====
-- `RotateKeys`, over the messages and the audit log.
use gogoclaw.Base.{
  ℕ, ◌≡◌, refl, sym, ap, subst, ◌∙◌, ◌⊎◌, inl, inr, arith, none, some, Bool-cases, Option-cases,
}
use gogoclaw.Base.Bytes.{Bytes}
use gogoclaw.Base.Outcome.{Outcome, ok, err}
use gogoclaw.Storage.Encryption.{Crypto, IsSound, key_equals}
use gogoclaw.Storage.Rotation.{rotate_messages}
use gogoclaw.Storage.Rotation.Statements.{Datetime, Pass, RotateResult}
use gogoclaw.Storage.Rotation.Pages.{
  RotateError, same_key, no_database, database, Ended, Ended-cases,
}
use gogoclaw.Storage.Rotation.Sealing.{IsDrawn, IsSeparate}
use gogoclaw.Storage.Rotation.Kept.{IsKept, IsKept-refl}
use gogoclaw.Storage.Rotation.Tables.{Zip, Zip-refl, IsKeyed}
use gogoclaw.Storage.Rotation.PassedOver.{IsRekeyed}
use gogoclaw.Storage.Rotation.Laws.{DrawsNonces, rotate_messages-Kept}
use gogoclaw.Storage.Rotation.Complete.{rotate_messages-IsRekeyed}
use gogoclaw.Storage.Rotation.Audit.{
  Disk, Events, no_result, rotate_audit_log, rotate_stores, rotate_keys,
}
use gogoclaw.Storage.Rotation.Audit.Laws.{rotate_audit_log-SameLog, rotate_audit_log_failed}
use gogoclaw.Storage.Rotation.Audit.Lines.{SameLog}

-- A refusal leaves everything as it is.
rotate_keys-cases :
    (C : Crypto) (datetime : Datetime) (ev : Events) (old new : Bytes) (disk : Disk)
    → ((e : RotateError) × (rotate_keys C datetime ev (some old) (some new) disk ≡ (err e, disk)))
      ⊎ (rotate_keys C datetime ev (some old) (some new) disk
          ≡ rotate_stores C old new datetime ev disk)
unfolding rotate_keys
rotate_keys-cases C datetime ev old new disk =
    elim (Bool-cases (key_equals (some old) (some new))) [
      | inl e ↦ inl (same_key, rw (e, rotate_keys) refl)
      | inr e ↦ elim (Bool-cases ev.database_found) [
        | inr f ↦ inl (no_database, rw (e, rotate_keys, f) refl)
        | inl f ↦ elim (Bool-cases ev.database_opened) [
          | inr g ↦ inl (database, rw (e, rotate_keys, f, g) refl)
          | inl g ↦ inr (rw (e, rotate_keys, f, g) refl)
        ]
      ]
    ]

abbrev Result : Type 0
Result = Outcome RotateError RotateResult × Disk

not_ok :
    (x : RotateError) (r : RotateResult)
    → ◌≡◌ {A = Outcome RotateError RotateResult} (err x) (ok r)
    → ⊥
not_ok x r h = ground (arith, h)

module _ (C : Crypto) (sound : IsSound C) (old new : Bytes) (separate : IsSeparate C old new)
    (datetime : Datetime) (ev : Events) (draws : DrawsNonces ev.first)
    (draws' : DrawsNonces ev.second) (draws'' : (i : ℕ) → IsDrawn (ev.audit_run.draw i))
    (disk : Disk) (keyed : IsKeyed disk.table) where
  abbrev Rows : Result → Type 0
  Rows x = Zip (IsKept C old new) disk.table x.1.table

  abbrev Lines : Result → Type 0
  Lines x = (x.1.audit ≡ disk.audit) ⊎ SameLog C old new disk.audit x.1.audit

  abbrev start : Pass
  start = record { table = disk.table; cursor = none; result = no_result }

  rows-IsKept :
      Zip
        (IsKept C old new)
        disk.table
        (rotate_messages C old new datetime ev.first ev.second start).1.table
  rows-IsKept =
      rotate_messages-Kept C sound old new separate datetime ev.first ev.second draws draws' start
        keyed

  rotate_stores-Kept :
      Rows (rotate_stores C old new datetime ev disk)
      × Lines (rotate_stores C old new datetime ev disk)
  unfolding rotate_stores
  rotate_stores-Kept =
      let (ended, s) : Ended × Pass = rotate_messages C old new datetime ev.first ev.second start in
      elim (Ended-cases ended) [
        | inr (inl (x, e)) ↦ rw (e, rotate_stores) (rows-IsKept, inl refl)
        | inr (inr e) ↦ rw (e, rotate_stores) (rows-IsKept, inl refl)
        | inl e ↦
            elim (Option-cases
              (rotate_audit_log C old new ev.audit_run disk.audit s.result).error) [
                | inl f ↦
                    rw (e, rotate_stores, f)
                      (
                        rows-IsKept,
                        inr (
                            rotate_audit_log-SameLog C sound old new ev.audit_run draws'' disk.audit
                              s.result f),
                      )
                | inr (x, f) ↦
                    rw (e, rotate_stores, f)
                      (
                        rows-IsKept,
                        inl (
                            rotate_audit_log_failed C sound old new ev.audit_run disk.audit s.result
                              x f),
                      )
              ]
      ]

  -- With a sound cipher, two keys of which no stored text opens under both, nonces of twelve bytes
  -- and a table whose ids differ: however `RotateKeys` ends, the rows afterwards are the rows before
  -- in the same order, a message that was read with the old key is read the same with the old or the
  -- new one, one that was read with the new key still is, and the audit log is as it was or every line
  -- that the old key read is one that the new key reads the same.
  pub rotate_keys-Kept :
      Zip
        (IsKept C old new)
        disk.table
        (rotate_keys C datetime ev (some old) (some new) disk).1.table
      × (((rotate_keys C datetime ev (some old) (some new) disk).1.audit ≡ disk.audit)
          ⊎ SameLog C old new disk.audit
              (rotate_keys C datetime ev (some old) (some new) disk).1.audit)
  rotate_keys-Kept = elim (rotate_keys-cases C datetime ev old new disk) [
    | inl (x, e) ↦
        subst (λ r. Rows r × Lines r) (sym e)
          (Zip-refl (IsKept C old new) (IsKept-refl C old new) disk.table, inl refl)
    | inr e ↦ subst (λ r. Rows r × Lines r) (sym e) rotate_stores-Kept
  ]

  abbrev Moved : Result → Type 0
  Moved x =
      Zip (IsRekeyed C old new datetime disk.table) disk.table x.1.table
      × SameLog C old new disk.audit x.1.audit

  rotate_stores-IsRekeyed :
      (r : RotateResult)
      → (rotate_stores C old new datetime ev disk).0 ≡ ok r
      → Moved (rotate_stores C old new datetime ev disk)
  unfolding rotate_stores
  rotate_stores-IsRekeyed r h =
      let (ended, s) : Ended × Pass = rotate_messages C old new datetime ev.first ev.second start in
      elim (Ended-cases ended) [
        | inr (inl (x, e)) ↦ absurd (ground (arith, h, e))
        | inr (inr e) ↦ absurd (ground (arith, h, e))
        | inl e ↦
            elim (Option-cases
              (rotate_audit_log C old new ev.audit_run disk.audit s.result).error) [
                | inr (x, f) ↦ absurd (ground (arith, h, e, f))
                | inl f ↦
                    rw (e, rotate_stores, f)
                      (
                        rotate_messages-IsRekeyed C sound old new separate datetime ev.first
                            ev.second draws draws' start refl keyed e,
                        rotate_audit_log-SameLog C sound old new ev.audit_run draws'' disk.audit
                            s.result f,
                      )
              ]
      ]

  -- With a sound cipher, two keys of which no stored text opens under both, nonces of twelve bytes
  -- and a table whose ids differ, whatever `datetime` reads of the times: if `RotateKeys` ends with
  -- no error, every row is encrypted; a message that was read with the old or the new key, encrypted
  -- or not, is read the same with the new key, unless the cursor passed its row over; such a row is
  -- as readable as before, and another row comes before it by time and id, while `datetime` reads no
  -- time of its stored text or of what is scanned of the other row, or a later time of the other row,
  -- or the same time and its own id is not the greater; and every line of the audit log that the old
  -- key read the new key reads the same.
  pub rotate_keys-IsRekeyed :
      (r : RotateResult)
      → (rotate_keys C datetime ev (some old) (some new) disk).0 ≡ ok r
      → Zip
          (IsRekeyed C old new datetime disk.table)
          disk.table
          (rotate_keys C datetime ev (some old) (some new) disk).1.table
        × SameLog C old new disk.audit
            (rotate_keys C datetime ev (some old) (some new) disk).1.audit
  rotate_keys-IsRekeyed r h = elim (rotate_keys-cases C datetime ev old new disk) [
    | inl (x, e) ↦ absurd (not_ok x r (sym (ap (λ (q : Result). q.0) e) ∙ h))
    | inr e ↦ subst Moved (sym e) (rotate_stores-IsRekeyed r (sym (ap (λ (q : Result). q.0) e) ∙ h))
  ]
