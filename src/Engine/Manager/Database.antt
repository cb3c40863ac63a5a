-- ===== src/Engine/Manager/Database.antt =====
-- internal/storage/conversations.go: what `AddMessage` and `EnsureConversationAndAddMessage` do to
-- the two tables. Which statements fail is a parameter; the times of a conversation are left out.
use gogoclaw.Base.{not, if◌then◌else◌, Option, none, some, List, [], ◌∷◌, ◌++◌, any_of}
use gogoclaw.Base.Bytes.{Bytes, bytes_eq}
use gogoclaw.Storage.Messages.{Row}
use gogoclaw.Engine.Manager.{Statement, add_message, ensure_and_add}

-- The ids of the conversations, and the messages in the order in which they were inserted.
pub record Database : Type 0 where
  pub conversations : List Bytes
  pub messages : List Row

-- The errors of the statements of one call.
pub record Faults : Type 0 where
  pub begin : Option Bytes
  pub count : Option Bytes
  pub create : Option Bytes
  pub insert : Option Bytes
  pub touch : Option Bytes
  pub commit : Option Bytes

unfoldable pub first_error : List (Option Bytes) → Option Bytes
first_error [] = none
first_error (none ∷ es) = first_error es
first_error (some text ∷ es) = some text

-- `AddMessage`: the message stays if only the conversation's time could not be set.
unfoldable pub add_row : Faults → Row → Database → Option Bytes × Database
add_row f row db = elim f.insert [
  | some text ↦ (some text, db)
  | none ↦ (f.touch, record db { messages = db.messages ++ (row ∷ []) })
]

-- `EnsureConversationAndAddMessage`: an error rolls the transaction back.
unfoldable pub ensure_and_add_row : Faults → Bytes → Row → Database → Option Bytes × Database
unfolding bytes_eq first_error
ensure_and_add_row f conv row db =
    let is_new = not (any_of (bytes_eq conv) db.conversations) in
    elim (first_error (
      f.begin
      ∷ f.count
      ∷ (if is_new then f.create else none)
      ∷ f.insert
      ∷ f.touch
      ∷ f.commit
      ∷ [])) [
        | some text ↦ (some text, db)
        | none ↦ (
          none,
          record {
            conversations = if is_new then conv ∷ db.conversations else db.conversations;
            messages = db.messages ++ (row ∷ []);
          },
        )
      ]

unfoldable pub execute : Faults → Statement → Database → Option Bytes × Database
unfolding add_row ensure_and_add_row
execute f (add_message row) db = add_row f row db
execute f (ensure_and_add conv agent row) db = ensure_and_add_row f conv row db
