-- ===== src/Storage/Rotation.antt =====
-- internal/storage/rotation.go: the two passes over the messages of `RotateKeys`. A table is the
-- list of its rows; the statements are translated from their SQL. SQLite's `datetime`, the cipher
-- and what fails during a run are parameters.
pub mod Statements
pub mod Pages
pub mod Rows
pub mod Kept
pub mod Tables
pub mod Select
pub mod Batches
pub mod Order
pub mod Updates
pub mod Ends
pub mod Sorted
pub mod PassedOver
pub mod Complete
pub mod Audit
pub mod Sealing
mod Tests
pub mod Laws
use gogoclaw.Base.{
  ℕ, suc, ◌+◌, ltb, ◌==◌, Bool, true, false, not, ◌&&◌, ◌||◌, if◌then◌else◌, Option, none, some,
  List, [], ◌∷◌, map, length, take, keep_if,
}
use gogoclaw.Base.Bytes.{Bytes, bytes_eq}
use gogoclaw.Base.Outcome.{Outcome, ok, err, ◌>>=◌}
use gogoclaw.Storage.Encryption.{Crypto, decrypt, build_message_aad, key_equals}
use gogoclaw.Storage.Messages.{StoredMessage, Row, StorageError, seal_text, seal_calls}
use gogoclaw.Storage.Rotation.Pages.{
  RotateError, nil_encryptor, same_key, canceled, database, invalid_base64, undecryptable,
  inconsistent, sealing, Ended, finished, stopped, out_of_fuel, Page, done, failed, next, run_pages,
}
use gogoclaw.Storage.Rotation.Statements.{
  Datetime, Batch, Cursor, KeyName, Opened, Pass, RotateResult, Run, Sealed, Table, after, before,
  bytes_lt, cursor_of, each_row, insert, is_consistent, last_of, lift, new_key, old_key, order_by,
  overwrite, require, rotation_batch_size, row_aad, same_name, select_rows, update_row,
}

module _ (C : Crypto) (old new : Bytes) where
  unfoldable pub try_both_keys : Bytes → Bytes → Bytes → Outcome RotateError Opened
  unfolding decrypt
  try_both_keys text aad id = elim (C.decode text) [
    | none ↦ err (invalid_base64 id)
    | some ct ↦ elim (decrypt C old ct aad) [
      | ok plain ↦ ok (record { key = old_key; text = plain })
      | err _ ↦ elim (decrypt C new ct aad) [
        | ok plain ↦ ok (record { key = new_key; text = plain })
        | err _ ↦ err (undecryptable id)
      ]
    ]
  ]

  -- Empty tool calls have no key.
  unfoldable pub try_calls : Bytes → Bytes → Bytes → Outcome RotateError (Option Opened)
  unfolding try_both_keys
  try_calls [] aad id = ok none
  try_calls (c ∷ cs) aad id = try_both_keys (c ∷ cs) aad id >>= (λ o. ok (some o))

  unfoldable pub seal_opened : Option Bytes → Bytes → Option Opened → Outcome RotateError Bytes
  unfolding seal_text
  seal_opened drawn aad none = ok []
  seal_opened drawn aad (some o) = lift (seal_text C new drawn aad o.text)

  unfoldable pub re_encrypt :
      Option Bytes
      → Option Bytes
      → StoredMessage
      → Opened
      → Option Opened
      → Outcome RotateError (Option Sealed)
  unfolding seal_text seal_opened
  re_encrypt n1 n2 m content calls = elim content.key [
    | new_key ↦ ok none
    | old_key ↦ do
      c ← lift (seal_text C new n1 (row_aad m) content.text)
      t ← seal_opened n2 (row_aad m) calls
      ok (some (record { content = c; tool_calls = t }))
  ]

  -- What a row is overwritten with, `none` if it is under the new key.
  unfoldable pub rotate_row :
      Option Bytes → Option Bytes → StoredMessage → Outcome RotateError (Option Sealed)
  unfolding try_both_keys try_calls is_consistent re_encrypt
  rotate_row n1 n2 m = do
    content ← try_both_keys m.content (row_aad m) m.id
    calls ← try_calls m.tool_calls (row_aad m) m.id
    _ ← require (is_consistent content calls) (inconsistent m.id)
    re_encrypt n1 n2 m content calls

  -- One message of a batch of the first pass.
  unfoldable pub rotate_one : Run → ℕ → StoredMessage → Batch → Outcome RotateError Batch
  unfolding rotate_row update_row
  rotate_one run k m b = do
    _ ← require (run.live_row k m.id) canceled
    change ← rotate_row (run.draw_content k m.id) (run.draw_calls k m.id) m
    elim change [
      | none ↦ ok (record b { skipped = b.skipped + 1 })
      | some s ↦ do
        _ ← require (run.updated k m.id) database
        ok (record b { table = update_row m.id s b.table; rotated = b.rotated + 1 })
    ]

  -- What a plaintext row is overwritten with.
  unfoldable pub encrypt_row :
      Option Bytes → Option Bytes → StoredMessage → Outcome RotateError Sealed
  unfolding seal_text seal_calls
  encrypt_row n1 n2 m = do
    c ← lift (seal_text C new n1 (row_aad m) m.content)
    t ← lift (seal_calls C new n2 (row_aad m) m.tool_calls)
    ok (record { content = c; tool_calls = t })

  -- One message of a batch of the second pass.
  unfoldable pub encrypt_one : Run → ℕ → StoredMessage → Table → Outcome RotateError Table
  unfolding encrypt_row update_row
  encrypt_one run k m table = do
    _ ← require (run.live_row k m.id) canceled
    s ← encrypt_row (run.draw_content k m.id) (run.draw_calls k m.id) m
    _ ← require (run.updated k m.id) database
    ok (update_row m.id s table)

  -- A batch in its transaction, which is rolled back on an error.
  unfoldable pub commit_rotated : Run → ℕ → Pass → StoredMessage → List StoredMessage → Page Pass
  unfolding each_row rotate_one
  commit_rotated run k s m ms =
      elim (do
        _ ← require (run.begun k) database
        b ←
            each_row (rotate_one run k) (m ∷ ms)
              (record { table = s.table; rotated = 0; skipped = 0 })
        _ ← require (run.committed k) database
        ok b) [
          | err e ↦ failed e
          | ok b ↦ next (record {
            table = b.table;
            cursor = some (cursor_of (last_of m ms));
            result = record s.result {
              messages_rotated = s.result.messages_rotated + b.rotated;
              messages_skipped = s.result.messages_skipped + b.skipped;
            };
          })
        ]

  -- A round of `rotateEncryptedRows`.
  unfoldable pub rotate_page : Datetime → Run → ℕ → Pass → Page Pass
  unfolding select_rows after commit_rotated
  rotate_page datetime run k s =
      if run.live k
      then (if run.queried k
          then (elim (select_rows true (after datetime s.cursor) s.table) [
            | [] ↦ done
            | m ∷ ms ↦ commit_rotated run k s m ms
          ])
          else failed database)
      else failed canceled

  unfoldable pub commit_encrypted : Run → ℕ → Pass → List StoredMessage → Page Pass
  unfolding each_row encrypt_one
  commit_encrypted run k s ms =
      elim (do
        _ ← require (run.begun k) database
        table ← each_row (encrypt_one run k) ms s.table
        _ ← require (run.committed k) database
        ok table) [
          | err e ↦ failed e
          | ok table ↦ next (record s {
            table = table;
            result = record s.result {
              plaintext_encrypted = s.result.plaintext_encrypted + length ms;
            };
          })
        ]

  -- A round of `encryptPlaintextRows`.
  unfoldable pub encrypt_page : Run → ℕ → Pass → Page Pass
  unfolding select_rows commit_encrypted
  encrypt_page run k s =
      if run.live k
      then (if run.queried k
          then (elim (select_rows false (λ m. true) s.table) [
            | [] ↦ done
            | m ∷ ms ↦ commit_encrypted run k s (m ∷ ms)
          ])
          else failed database)
      else failed canceled

  -- The second pass starts where the first succeeded; each has a round more than there are rows.
  unfoldable pub both_passes : Datetime → Run → Run → Pass → Ended × Pass
  unfolding run_pages rotate_page encrypt_page
  both_passes datetime first second s =
      let one = run_pages (rotate_page datetime first) (suc (length s.table)) 0 s in
      elim one.0 [
        | stopped e ↦ (stopped e, one.1)
        | out_of_fuel ↦ (out_of_fuel, one.1)
        | finished ↦ run_pages (encrypt_page second) (suc (length one.1.table)) 0 one.1
      ]

  -- An empty table needs no pass.
  unfoldable pub rotate_messages : Datetime → Run → Run → Pass → Ended × Pass
  unfolding both_passes
  rotate_messages datetime first second s = elim s.table [
    | [] ↦ (finished, s)
    | _ ∷ _ ↦ both_passes datetime first second s
  ]
