-- ===== src/Storage/Migration/Tests.antt =====
-- A migration of two messages, one of them encrypted.
use gogoclaw.Base.{◌⊎◌, ℕ, Option, none, ◌≡◌, ◌≢◌, refl, arith, true, false, some, [], ◌∷◌, ◌++◌}
use gogoclaw.Base.Bytes.{Bytes, bytes, bytes_eq, bytes_eq_iff}
use gogoclaw.Storage.Encryption.{Crypto, IsSound, encrypt, build_message_aad}
use gogoclaw.Storage.Messages.{StoredMessage, seal_text, seal_calls}
use gogoclaw.Storage.Rotation.{encrypt_row}
use gogoclaw.Storage.Rotation.Statements.{
  Run, Table, before, insert, order_by, select_rows, each_row, bytes_lt,
}
use gogoclaw.Storage.Rotation.Pages.{RotateError, stopped, finished, run_pages}
use gogoclaw.Storage.Rotation.Tables.{Zip}
use gogoclaw.Storage.Rotation.Sealing.{IsDrawn}
use gogoclaw.Storage.Migration.{
  update_plain_row, migrate_one, commit_migrated, migrate_page, migrate_to_encrypted,
}
use gogoclaw.Storage.Migration.Laws.{Migrated, migrate_to_encrypted-Migrated}

abbrev tail_of : Bytes → Option Bytes
tail_of [] = none
tail_of (b ∷ bs) = some bs

abbrev clear : Crypto
clear = record {
  accepts = λ key. true;
  seal = λ key drawn text aad. text;
  unseal = λ key drawn text aad. some text;
  encode = λ xs. 1 ∷ xs;
  decode = tail_of;
}

clear-IsSound : IsSound clear
clear-IsSound = record {
  unseal-seal = λ key drawn text aad. refl;
  decode-encode = λ xs. refl;
  encode_nonempty = λ x xs e. cc;
}

abbrev drawn : Bytes
drawn = bytes "abcdefghijkl"

abbrev run : Run
run = record {
  live = λ k. true;
  queried = λ k. true;
  begun = λ k. true;
  live_row = λ k id. true;
  draw_content = λ k id. some drawn;
  draw_calls = λ k id. some drawn;
  updated = λ k id. true;
  committed = λ k. true;
}

abbrev message : Bytes → Bytes → StoredMessage
message id content = record {
  id = id;
  conversation_id = bytes "c";
  role = bytes "user";
  content = content;
  tool_calls = [];
  tool_call_id = [];
  token_count = 0;
  created_at = 5;
}

abbrev table : Table
table =
    record { message = message (bytes "a") (1 ∷ drawn ++ bytes "hi"); encrypted = true }
    ∷ record { message = message (bytes "b") (bytes "there"); encrypted = false }
    ∷ []

two_ids : bytes "b" ≢ bytes "a"
two_ids e = ground (arith, (bytes_eq_iff (bytes "b") (bytes "a")).1 e)

draws : (k : ℕ) (id : Bytes) → IsDrawn (some drawn) × IsDrawn (some drawn)
draws k id = (omega arith, omega arith)

migrates : (migrate_to_encrypted clear (some (bytes "key")) run table).0 ≡ finished
unfolding migrate_to_encrypted run_pages migrate_page commit_migrated migrate_one update_plain_row
    encrypt_row seal_text seal_calls encrypt select_rows order_by insert before bytes_lt each_row
    bytes_eq build_message_aad
migrates = refl

migrate_to_encrypted-Migrated_example :
    ((e : RotateError) × ((migrate_to_encrypted clear (some (bytes "key")) run table).0
        ≡ stopped e))
    ⊎ (((migrate_to_encrypted clear (some (bytes "key")) run table).0 ≡ finished)
        × Zip
            (Migrated clear clear-IsSound (bytes "key") run draws)
            table
            (migrate_to_encrypted clear (some (bytes "key")) run table).1)
migrate_to_encrypted-Migrated_example =
    migrate_to_encrypted-Migrated clear clear-IsSound (bytes "key") run draws table
      ((two_ids, tt), (tt, tt))
