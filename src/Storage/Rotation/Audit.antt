-- ===== src/Storage/Rotation/Audit.antt =====
-- internal/storage/rotation.go: `rotateAuditLog`, and `RotateKeys` over it and the two passes. The
-- audit log is the list of the lines that the scanner gives; what the file system and the context
-- do is a parameter.
pub mod Lines
pub mod Laws
pub mod Keys
use gogoclaw.Base.{
  ℕ, zero, suc, ◌+◌, Bool, true, false, not, ◌||◌, if◌then◌else◌, Option, none, some, List, [], ◌∷◌,
  ◌++◌, drop, length,
}
use gogoclaw.Base.Bytes.{Bytes, bytes, bytes_eq, has_prefix, trim_space}
use gogoclaw.Base.Outcome.{Outcome, ok, err, ◌>>=◌}
use gogoclaw.Storage.Encryption.{Crypto, key_equals}
use gogoclaw.Storage.Messages.{open_text, seal_text}
use gogoclaw.Storage.Rotation.{rotate_messages}
use gogoclaw.Storage.Rotation.Statements.{Datetime, Table, RotateResult, Run, Pass, require, lift}
use gogoclaw.Storage.Rotation.Pages.{
  RotateError, nil_encryptor, same_key, no_database, canceled, database, audit_file, Ended,
  finished, stopped, out_of_fuel,
}

abbrev pub encrypted_prefix : Bytes
encrypted_prefix = bytes "enc:v1:"

-- What the counts say of a line.
pub data Counted : Type 0 where
  blank rotated passed_thru : Counted

pub record Rewritten : Type 0 where
  pub line : Bytes
  pub counted : Counted

pub record Output : Type 0 where
  pub lines : List Bytes
  pub lines_rotated : ℕ
  pub lines_passed_thru : ℕ

-- Whether each step on the files succeeds, by the number of the line where there is one.
pub record AuditRun : Type 0 where
  pub live_before : Bool
  pub created : Bool
  pub live_line : ℕ → Bool
  pub draw : ℕ → Option Bytes
  pub written : ℕ → Bool
  pub saved : Bool
  pub live_after : Bool
  pub renamed : Bool

pub record AuditEnd : Type 0 where
  pub error : Option RotateError
  pub audit : Option (List Bytes)
  pub result : RotateResult

-- What a rotation works on: the rows of the database and the lines of the audit log, if it exists.
pub record Disk : Type 0 where
  pub table : Table
  pub audit : Option (List Bytes)

pub record Events : Type 0 where
  pub database_found : Bool
  pub database_opened : Bool
  pub first : Run
  pub second : Run
  pub audit_run : AuditRun

abbrev pub add_counted : Counted → Bytes → Output → Output
add_counted blank l o = record o { lines = l ∷ o.lines }
add_counted rotated l o = record o { lines = l ∷ o.lines; lines_rotated = o.lines_rotated + 1 }
add_counted passed_thru l o = record o {
  lines = l ∷ o.lines;
  lines_passed_thru = o.lines_passed_thru + 1;
}

abbrev pub with_counts : ℕ → ℕ → RotateResult → RotateResult
with_counts r p result = record result { audit_lines_rotated = r; audit_lines_passed_thru = p }

abbrev pub no_result : RotateResult
no_result = record {
  messages_rotated = 0;
  messages_skipped = 0;
  plaintext_encrypted = 0;
  audit_lines_rotated = 0;
  audit_lines_passed_thru = 0;
}

module _ (C : Crypto) (old new : Bytes) where
  -- An encrypted line is opened with the old key only.
  unfoldable pub rotate_line : Option Bytes → Bytes → Outcome RotateError Rewritten
  unfolding bytes_eq trim_space has_prefix open_text seal_text
  rotate_line drawn line =
      if bytes_eq (trim_space line) []
      then ok (record { line = line; counted = blank })
      else (elim (has_prefix line encrypted_prefix) [
        | false ↦ ok (record { line = line; counted = passed_thru })
        | true ↦ do
          plain ← lift (open_text C old [] (drop 7 line))
          text ← lift (seal_text C new drawn [] plain)
          ok (record { line = encrypted_prefix ++ text; counted = rotated })
      ])

  -- The temporary file that is written from line `i` on.
  unfoldable pub rotate_lines : AuditRun → ℕ → List Bytes → Outcome RotateError Output
  unfolding rotate_line
  rotate_lines run i [] = ok (record { lines = []; lines_rotated = 0; lines_passed_thru = 0 })
  rotate_lines run i (l ∷ ls) = do
    _ ← require (run.live_line i) canceled
    w ← rotate_line (run.draw i) l
    _ ← require (run.written i) audit_file
    o ← rotate_lines run (suc i) ls
    ok (add_counted w.counted w.line o)

  -- The file in place of the log, when everything before the rename succeeded.
  unfoldable pub rewrite_log : AuditRun → List Bytes → Outcome RotateError Output
  unfolding rotate_lines
  rewrite_log run lines = do
    _ ← require run.live_before canceled
    _ ← require run.created audit_file
    o ← rotate_lines run 0 lines
    _ ← require run.saved audit_file
    _ ← require run.live_after canceled
    _ ← require run.renamed audit_file
    ok o

  -- `rotateAuditLog`; a missing log is no error, and an error sets the counts to 0.
  unfoldable pub rotate_audit_log : AuditRun → Option (List Bytes) → RotateResult → AuditEnd
  unfolding rewrite_log
  rotate_audit_log run none result = record { error = none; audit = none; result = result }
  rotate_audit_log run (some lines) result = elim (rewrite_log run lines) [
    | err e ↦ record { error = some e; audit = some lines; result = with_counts 0 0 result }
    | ok o ↦ record {
      error = none;
      audit = some o.lines;
      result =
          with_counts (result.audit_lines_rotated + o.lines_rotated)
            (result.audit_lines_passed_thru + o.lines_passed_thru) result;
    }
  ]

  unfoldable pub rotate_stores : Datetime → Events → Disk → Outcome RotateError RotateResult × Disk
  unfolding rotate_messages rotate_audit_log
  rotate_stores datetime ev disk =
      let start : Pass = record { table = disk.table; cursor = none; result = no_result } in
      let (ended, s) = rotate_messages C old new datetime ev.first ev.second start in
      elim ended [
        | stopped e ↦ (err e, record disk { table = s.table })
        | out_of_fuel ↦ (err database, record disk { table = s.table })
        | finished ↦
            let end = rotate_audit_log ev.audit_run disk.audit s.result in
            elim end.error [
              | some e ↦ (err e, record { table = s.table; audit = end.audit })
              | none ↦ (ok end.result, record { table = s.table; audit = end.audit })
            ]
      ]

-- `RotateKeys`, where no audit path is a missing log.
unfoldable pub rotate_keys :
    (C : Crypto)
    → Datetime
    → Events
    → Option Bytes
    → Option Bytes
    → Disk
    → Outcome RotateError RotateResult × Disk
unfolding key_equals rotate_stores
rotate_keys C datetime ev none new disk = (err nil_encryptor, disk)
rotate_keys C datetime ev (some old) none disk = (err nil_encryptor, disk)
rotate_keys C datetime ev (some old) (some new) disk =
    if key_equals (some old) (some new)
    then (err same_key, disk)
    else if not ev.database_found
    then (err no_database, disk)
    else if not ev.database_opened
    then (err database, disk)
    else rotate_stores C old new datetime ev disk
