-- ===== src/Engine/Manager.antt =====
-- internal/engine/session_manager.go and persistence.go: one session for each channel and
-- conversation, loaded from the store, and the messages written to it. Parameters are what SQLite
-- selects and executes, and `encoding/json` on tool calls. The locks make each method one step.
pub mod Laws
pub mod Database
mod Tests
use gogoclaw.Base.{
  ℕ, ◌&&◌, Bool, true, false, if◌then◌else◌, Option, none, some, List, [], ◌∷◌, map, any_of,
}
use gogoclaw.Base.Bytes.{Bytes, bytes_eq}
use gogoclaw.Base.Outcome.{Outcome, ok, err}
use gogoclaw.Provider.{Message, ToolCall}
use gogoclaw.Storage.Encryption.{Crypto}
use gogoclaw.Storage.Messages.{StoredMessage, Row, Scrubber, StorageError, store_row, load_rows}
use gogoclaw.Engine.Session.{Session}

pub record SessionKey : Type 0 where
  pub channel : Bytes
  pub conversation_id : Bytes

pub record SessionManager : Type 0 where
  pub sessions : List (SessionKey × Session)
  pub known_conversations : List Bytes
  pub has_store : Bool

pub record Json : Type 0 where
  pub marshal : List ToolCall → Option Bytes
  pub unmarshal : Bytes → Option (List ToolCall)

-- The store's encryptor and scrubber, and its cipher.
pub record Store : Type 0 where
  pub crypto : Crypto
  pub key : Option Bytes
  pub scrubber : Option Scrubber
  pub select : Bytes → Option (List Row)

pub data ManagerError : Type 0 where
  query_failed : ManagerError
  storage : StorageError → ManagerError
  exec_failed : Bytes → ManagerError

unfoldable pub same_key : SessionKey → SessionKey → Bool
unfolding bytes_eq
same_key a b = bytes_eq a.channel b.channel && bytes_eq a.conversation_id b.conversation_id

unfoldable pub find_session : SessionKey → List (SessionKey × Session) → Option Session
unfolding same_key
find_session k [] = none
find_session k ((j, s) ∷ rest) = if same_key j k then some s else find_session k rest

-- `Get`
unfoldable pub get : SessionManager → Bytes → Bytes → Option Session
unfolding find_session
get m channel conv = find_session (record { channel = channel; conversation_id = conv }) m.sessions

without_key : SessionKey → List (SessionKey × Session) → List (SessionKey × Session)
unfolding same_key
without_key k [] = []
without_key k ((j, s) ∷ rest) =
    let others = without_key k rest in if same_key j k then others else (j, s) ∷ others

unfoldable pub remove : SessionManager → SessionKey → SessionManager
unfolding without_key
remove m k = record m { sessions = without_key k m.sessions }

-- Tool calls that cannot be read are dropped.
read_calls : Json → Bytes → List ToolCall
read_calls json [] = []
read_calls json (b ∷ bs) = elim (json.unmarshal (b ∷ bs)) [ some calls ↦ calls | none ↦ [] ]

unfoldable pub to_provider : Json → StoredMessage → Message
unfolding read_calls
to_provider json s = record {
  role = s.role;
  content = s.content;
  tool_calls = read_calls json s.tool_calls;
  tool_call_id = s.tool_call_id;
}

abbrev fresh_session : Bytes → Bytes → List Message → Session
fresh_session channel conv history = record {
  conversation_id = conv;
  channel = channel;
  agent_profile = [];
  history = history;
  summarizing = false;
  pending_summary = none;
}

-- `GetMessages` of the conversation.
get_messages : Store → Bytes → Outcome ManagerError (List StoredMessage)
unfolding load_rows
get_messages store conv = elim (store.select conv) [
  | none ↦ err query_failed
  | some rows ↦ elim (load_rows store.crypto store.key rows) [
    | ok msgs ↦ ok msgs
    | err e ↦ err (storage e)
  ]
]

abbrev put_session : SessionManager → Bytes → Bytes → Session → SessionManager
put_session m channel conv s = record m {
  sessions = (record { channel = channel; conversation_id = conv }, s) ∷ m.sessions;
}

-- A new session from the messages that were loaded.
from_messages :
    Json → SessionManager → Bytes → Bytes → List StoredMessage → Session × SessionManager
unfolding to_provider
from_messages json m channel conv [] =
    let s = fresh_session channel conv [] in (s, put_session m channel conv s)
from_messages json m channel conv (x ∷ xs) =
    let s = fresh_session channel conv (map (to_provider json) (x ∷ xs)) in
    let m' = record m { known_conversations = conv ∷ m.known_conversations } in
    (s, put_session m' channel conv s)

load_session :
    Json → Store → SessionManager → Bytes → Bytes → Outcome ManagerError Session × SessionManager
unfolding get_messages from_messages
load_session json store m channel conv =
    if m.has_store
    then (elim (get_messages store conv) [
      | err e ↦ (err e, m)
      | ok msgs ↦ let (s, m') = from_messages json m channel conv msgs in (ok s, m')
    ])
    else (let (s, m') = from_messages json m channel conv [] in (ok s, m'))

-- `GetOrCreate`
unfoldable pub get_or_create :
    Json → Store → SessionManager → Bytes → Bytes → Outcome ManagerError Session × SessionManager
unfolding get load_session
get_or_create json store m channel conv = elim (get m channel conv) [
  | some s ↦ (ok s, m)
  | none ↦ load_session json store m channel conv
]

-- Tool calls that cannot be written are left out.
write_calls : Json → List ToolCall → Bytes
write_calls json [] = []
write_calls json (c ∷ cs) = elim (json.marshal (c ∷ cs)) [ some text ↦ text | none ↦ [] ]

-- The message as it is stored, under an id and at a time that are drawn for it.
unfoldable pub to_stored : Json → Session → Message → Bytes → ℕ → StoredMessage
unfolding write_calls
to_stored json s msg id now = record {
  id = id;
  conversation_id = s.conversation_id;
  role = msg.role;
  content = msg.content;
  tool_calls = write_calls json msg.tool_calls;
  tool_call_id = msg.tool_call_id;
  token_count = 0;
  created_at = now;
}

-- The two ways of writing a row: `AddMessage`, or `EnsureConversationAndAddMessage` with the
-- conversation's id and agent.
pub data Statement : Type 0 where
  add_message : Row → Statement
  ensure_and_add : Bytes → Bytes → Row → Statement

abbrev pub statement_for : Bool → Session → Row → Statement
statement_for true s row = add_message row
statement_for false s row = ensure_and_add s.conversation_id s.agent_profile row

abbrev pub knowing : Bool → Bytes → SessionManager → SessionManager
knowing true conv m = m
knowing false conv m = record m { known_conversations = conv ∷ m.known_conversations }

-- What a message is given before it is written: its id, its time and the nonces of its texts.
pub record Stamp : Type 0 where
  pub id : Bytes
  pub now : ℕ
  pub nonces : Option Bytes × Option Bytes

module _ {World : Type 0} (exec : Statement → World → Option Bytes × World) where
  unfoldable pub write_row :
      SessionManager
      → Session
      → Row
      → World
      → Outcome ManagerError (Unit {0}) × SessionManager × World
  unfolding bytes_eq
  write_row m s row w =
      let known = any_of (bytes_eq s.conversation_id) m.known_conversations in
      let (failure, w') = exec (statement_for known s row) w in
      elim failure [
        | some text ↦ (err (exec_failed text), m, w')
        | none ↦ (ok tt, knowing known s.conversation_id m, w')
      ]

  -- `persistMessage`, which the three methods of the hook call.
  unfoldable pub persist_message :
      Json
      → Store
      → Stamp
      → SessionManager
      → Session
      → Message
      → World
      → Outcome ManagerError (Unit {0}) × SessionManager × World
  unfolding write_row to_stored
  persist_message json store stamp m s msg w =
      if m.has_store
      then (elim (store_row store.crypto store.key store.scrubber stamp.nonces.0 stamp.nonces.1
          (to_stored json s msg stamp.id stamp.now)) [
            | err e ↦ (err (storage e), m, w)
            | ok row ↦ write_row m s row w
          ])
      else (ok tt, m, w)
