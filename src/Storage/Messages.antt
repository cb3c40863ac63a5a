-- ===== src/Storage/Messages.antt =====
-- internal/storage/conversations.go: how a message is written to its row and read from it. The
-- scrubber is a parameter; what SQLite does with the row is not modelled.
pub mod Laws
use gogoclaw.Base.{
  ℕ, ◌==◌, Bool, true, false, if◌then◌else◌, Option, none, some, List, [], ◌∷◌, ◌++◌, length,
}
use gogoclaw.Base.Bytes.{Bytes}
use gogoclaw.Base.Outcome.{Outcome, ok, err, ◌>>=◌}
use gogoclaw.Storage.Encryption.{
  Crypto, CryptoError, bad_encoding, encrypt, decrypt, build_message_aad,
}

-- No tool calls and empty ones are both stored as the empty text; the time is a number.
pub record StoredMessage : Type 0 where
  pub id : Bytes
  pub conversation_id : Bytes
  pub role : Bytes
  pub content : Bytes
  pub tool_calls : Bytes
  pub tool_call_id : Bytes
  pub token_count : ℕ
  pub created_at : ℕ

-- A row of the table `messages`.
pub record Row : Type 0 where
  pub message : StoredMessage
  pub encrypted : Bool

pub data StorageError : Type 0 where
  crypto : CryptoError → StorageError
  no_encryptor : StorageError

pub record Scrubber : Type 0 where
  pub scrub : Bytes → Bytes
  pub has_secrets : Bytes → Bool

-- The content that is persisted.
unfoldable pub scrubbed : Option Scrubber → Bytes → Bytes
scrubbed none content = content
scrubbed (some s) content = if s.has_secrets content then s.scrub content else content

module _ (C : Crypto) where
  abbrev wrap : {A : Type 0} → Outcome CryptoError A → Outcome StorageError A
  wrap (ok a) = ok a
  wrap (err e) = err (crypto e)

  abbrev pub aad_of : StoredMessage → Bytes
  aad_of m = build_message_aad m.id m.conversation_id m.role

  unfoldable pub seal_text : Bytes → Option Bytes → Bytes → Bytes → Outcome StorageError Bytes
  unfolding encrypt
  seal_text key drawn aad text = do ct ← wrap (encrypt C key drawn text aad); ok (C.encode ct)

  -- Empty tool calls stay empty.
  unfoldable pub seal_calls : Bytes → Option Bytes → Bytes → Bytes → Outcome StorageError Bytes
  unfolding seal_text
  seal_calls key drawn aad [] = ok []
  seal_calls key drawn aad (c ∷ cs) = seal_text key drawn aad (c ∷ cs)

  -- The row that `AddMessage` inserts; the two nonces are those of its two encryptions.
  unfoldable pub store_row :
      Option Bytes
      → Option Scrubber
      → Option Bytes
      → Option Bytes
      → StoredMessage
      → Outcome StorageError Row
  unfolding scrubbed seal_text seal_calls build_message_aad
  store_row none scrubber n1 n2 m =
      ok
        (record { message = record m { content = scrubbed scrubber m.content }; encrypted = false })
  store_row (some key) scrubber n1 n2 m = do
    content ← seal_text key n1 (aad_of m) (scrubbed scrubber m.content)
    calls ← seal_calls key n2 (aad_of m) m.tool_calls
    ok (record { message = record m { content = content; tool_calls = calls }; encrypted = true })

  unfoldable pub open_text : Bytes → Bytes → Bytes → Outcome StorageError Bytes
  unfolding decrypt
  open_text key aad text = elim (C.decode text) [
    | none ↦ err (crypto bad_encoding)
    | some ct ↦ wrap (decrypt C key ct aad)
  ]

  unfoldable pub open_calls : Bytes → Bytes → Bytes → Outcome StorageError Bytes
  unfolding open_text
  open_calls key aad [] = ok []
  open_calls key aad (c ∷ cs) = open_text key aad (c ∷ cs)

  unfoldable pub open_encrypted : Option Bytes → StoredMessage → Outcome StorageError StoredMessage
  unfolding open_text open_calls build_message_aad
  open_encrypted none m = err no_encryptor
  open_encrypted (some key) m = do
    content ← open_text key (aad_of m) m.content
    calls ← open_calls key (aad_of m) m.tool_calls
    ok (record m { content = content; tool_calls = calls })

  -- One row of `GetMessages`.
  unfoldable pub load_row : Option Bytes → Row → Outcome StorageError StoredMessage
  unfolding open_encrypted
  load_row key row = if row.encrypted then open_encrypted key row.message else ok row.message

  -- All rows; the first error ends the read.
  unfoldable pub load_rows : Option Bytes → List Row → Outcome StorageError (List StoredMessage)
  unfolding load_row
  load_rows key [] = ok []
  load_rows key (r ∷ rs) = do m ← load_row key r; ms ← load_rows key rs; ok (m ∷ ms)
