-- ===== src/Storage/Migration.antt =====
-- `MigrateToEncrypted` of internal/storage/conversations.go, with the statements and the batches of
-- Storage/Rotation.
pub mod Updates
pub mod Laws
mod Tests
use gogoclaw.Base.{
  ℕ, suc, ◌==◌, Bool, true, false, not, ◌&&◌, if◌then◌else◌, Option, none, some, List, [], ◌∷◌,
  length, keep_if,
}
use gogoclaw.Base.Bytes.{Bytes, bytes_eq}
use gogoclaw.Base.Outcome.{Outcome, ok, err, ◌>>=◌}
use gogoclaw.Storage.Encryption.{Crypto}
use gogoclaw.Storage.Messages.{StoredMessage, Row}
use gogoclaw.Storage.Rotation.{encrypt_row}
use gogoclaw.Storage.Rotation.Statements.{
  Table, Sealed, Run, overwrite, each_row, select_rows, require,
}
use gogoclaw.Storage.Rotation.Pages.{
  RotateError, nil_encryptor, database, Ended, stopped, Page, done, failed, next, run_pages,
}

-- `UPDATE … WHERE id = ? AND encrypted = 0`
unfoldable pub update_plain_row : Bytes → Sealed → Table → Table
unfolding bytes_eq
update_plain_row id s [] = []
update_plain_row id s (r ∷ rs) =
    (if bytes_eq r.message.id id && not r.encrypted then overwrite s r else r)
    ∷ update_plain_row id s rs

-- `SELECT COUNT(*) FROM messages WHERE encrypted = 0`
abbrev pub count_plain : Table → ℕ
count_plain table = length (keep_if (λ (r : Row). not r.encrypted) table)

module _ (C : Crypto) (key : Bytes) where
  unfoldable pub migrate_one : Run → ℕ → StoredMessage → Table → Outcome RotateError Table
  unfolding encrypt_row update_plain_row
  migrate_one run k m table = do
    s ← encrypt_row C key key (run.draw_content k m.id) (run.draw_calls k m.id) m
    _ ← require (run.updated k m.id) database
    ok (update_plain_row m.id s table)

  unfoldable pub commit_migrated : Run → ℕ → Table → List StoredMessage → Page Table
  unfolding each_row migrate_one
  commit_migrated run k table ms =
      elim (do
        _ ← require (run.begun k) database
        t ← each_row (migrate_one run k) ms table
        _ ← require (run.committed k) database
        ok t) [ err e ↦ failed e | ok t ↦ next t ]

  -- A round: `live` is whether the rows could be counted.
  unfoldable pub migrate_page : Run → ℕ → Table → Page Table
  unfolding select_rows commit_migrated
  migrate_page run k table =
      if not (run.live k)
      then failed database
      else if count_plain table == 0
      then done
      else if not (run.queried k)
      then failed database
      else (elim (select_rows false (λ m. true) table) [
        | [] ↦ done
        | m ∷ ms ↦ commit_migrated run k table (m ∷ ms)
      ])

-- `MigrateToEncrypted`, with a round more than there are rows.
unfoldable pub migrate_to_encrypted : Crypto → Option Bytes → Run → Table → Ended × Table
unfolding run_pages migrate_page
migrate_to_encrypted C none run table = (stopped nil_encryptor, table)
migrate_to_encrypted C (some key) run table =
    run_pages (migrate_page C key run) (suc (length table)) 0 table
