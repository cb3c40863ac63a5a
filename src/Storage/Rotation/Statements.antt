-- ===== src/Storage/Rotation/Statements.antt =====
-- internal/storage/rotation.go: the statements on the table of messages, the cursor and a batch.
use gogoclaw.Base.{
  ℕ, ltb, ◌==◌, Bool, true, false, not, ◌&&◌, ◌||◌, if◌then◌else◌, Option, none, some, List, [],
  ◌∷◌, map, take, keep_if,
}
use gogoclaw.Base.Bytes.{Bytes, bytes_eq}
use gogoclaw.Base.Outcome.{Outcome, ok, err, ◌>>=◌}
use gogoclaw.Storage.Encryption.{build_message_aad}
use gogoclaw.Storage.Messages.{StoredMessage, Row, StorageError}
use gogoclaw.Storage.Rotation.Pages.{RotateError, sealing}

abbrev pub rotation_batch_size : ℕ
rotation_batch_size = 100

abbrev pub Table : Type 0
Table = List Row

pub data KeyName : Type 0 where
  old_key new_key : KeyName

pub record Opened : Type 0 where
  pub key : KeyName
  pub text : Bytes

pub record Sealed : Type 0 where
  pub content : Bytes
  pub tool_calls : Bytes

pub record RotateResult : Type 0 where
  pub messages_rotated : ℕ
  pub messages_skipped : ℕ
  pub plaintext_encrypted : ℕ
  pub audit_lines_rotated : ℕ
  pub audit_lines_passed_thru : ℕ

pub record Cursor : Type 0 where
  pub created_at : ℕ
  pub id : Bytes

-- How a pass stands between two batches.
pub record Pass : Type 0 where
  pub table : Table
  pub cursor : Option Cursor
  pub result : RotateResult

-- What happens while batch `k` is worked on: whether the context is live and the statements
-- succeed, and which nonces are drawn for a message.
pub record Run : Type 0 where
  pub live : ℕ → Bool
  pub queried : ℕ → Bool
  pub begun : ℕ → Bool
  pub live_row : ℕ → Bytes → Bool
  pub draw_content : ℕ → Bytes → Option Bytes
  pub draw_calls : ℕ → Bytes → Option Bytes
  pub updated : ℕ → Bytes → Bool
  pub committed : ℕ → Bool

abbrev pub require : Bool → RotateError → Outcome RotateError (Unit {0})
require true e = ok tt
require false e = err e

abbrev pub lift : {A : Type 0} → Outcome StorageError A → Outcome RotateError A
lift (ok a) = ok a
lift (err e) = err (sealing e)

abbrev pub row_aad : StoredMessage → Bytes
row_aad m = build_message_aad m.id m.conversation_id m.role

-- `id > ?`, which compares bytes.
unfoldable pub bytes_lt : Bytes → Bytes → Bool
bytes_lt [] [] = false
bytes_lt [] (y ∷ ys) = true
bytes_lt (x ∷ xs) [] = false
bytes_lt (x ∷ xs) (y ∷ ys) = ltb x y || x == y && bytes_lt xs ys

-- `ORDER BY created_at ASC, id ASC`
unfoldable pub before : StoredMessage → StoredMessage → Bool
unfolding bytes_lt
before m n = ltb m.created_at n.created_at || m.created_at == n.created_at && bytes_lt m.id n.id

unfoldable pub insert : StoredMessage → List StoredMessage → List StoredMessage
unfolding before
insert m [] = m ∷ []
insert m (n ∷ ns) = let rest = insert m ns in if before n m then n ∷ rest else m ∷ n ∷ ns

unfoldable pub order_by : List StoredMessage → List StoredMessage
unfolding insert
order_by [] = []
order_by (m ∷ ms) = insert m (order_by ms)

-- The messages of the rows with the flag that pass a test, in order.
unfoldable pub select_rows : Bool → (StoredMessage → Bool) → Table → List StoredMessage
unfolding order_by
select_rows flag test table = take rotation_batch_size (
    order_by (
      map (λ (r : Row). r.message)
        (keep_if (λ (r : Row). (if flag then r.encrypted else not r.encrypted) && test r.message)
          table)))

-- `UPDATE messages SET content = ?, tool_calls = ?, encrypted = 1 WHERE id = ?`
abbrev pub overwrite : Sealed → Row → Row
overwrite s r = record {
  message = record r.message { content = s.content; tool_calls = s.tool_calls };
  encrypted = true;
}

unfoldable pub update_row : Bytes → Sealed → Table → Table
unfolding bytes_eq
update_row id s [] = []
update_row id s (r ∷ rs) =
    (if bytes_eq r.message.id id then overwrite s r else r) ∷ update_row id s rs

-- The loop over the rows of a batch; an error ends it.
unfoldable pub each_row {ℓ} :
    {P : Type ℓ}
    → (StoredMessage → P → Outcome RotateError P)
    → List StoredMessage
    → P
    → Outcome RotateError P
each_row step [] p = ok p
each_row step (m ∷ ms) p = step m p >>= each_row step ms

abbrev pub last_of : StoredMessage → List StoredMessage → StoredMessage
last_of m [] = m
last_of m (n ∷ ns) = last_of n ns

abbrev pub cursor_of : StoredMessage → Cursor
cursor_of m = record { created_at = m.created_at; id = m.id }

-- What `datetime` reads of the stored text of a time, and of the text that is scanned of it.
pub record Datetime : Type 0 where
  pub stored : ℕ → Option ℕ
  pub scanned : ℕ → Option ℕ

-- `datetime(created_at) > datetime(?) OR (datetime(created_at) = datetime(?) AND id > ?)`, where
-- NULL compares as neither.
unfoldable pub after : Datetime → Option Cursor → StoredMessage → Bool
unfolding bytes_lt
after datetime none m = true
after datetime (some c) m = elim (datetime.stored m.created_at) [
  | none ↦ false
  | some x ↦ elim (datetime.scanned c.created_at) [
    | none ↦ false
    | some y ↦ ltb y x || x == y && bytes_lt c.id m.id
  ]
]

pub record Batch : Type 0 where
  pub table : Table
  pub rotated : ℕ
  pub skipped : ℕ

unfoldable pub same_name : KeyName → KeyName → Bool
same_name old_key old_key = true
same_name new_key new_key = true
same_name _ _ = false

unfoldable pub is_consistent : Opened → Option Opened → Bool
unfolding same_name
is_consistent content none = true
is_consistent content (some calls) = same_name content.key calls.key
