-- ===== src/Engine/Manager/Tests.antt =====
-- A manager over a store that selects nothing, and a message that is written and read.
use gogoclaw.Base.{◌≡◌, refl, arith, true, false, none, some, [], ◌∷◌}
use gogoclaw.Base.Bytes.{Bytes, bytes}
use gogoclaw.Base.Outcome.{ok}
use gogoclaw.Provider.{Message, ToolCall, assistant_role}
use gogoclaw.Storage.Encryption.{Crypto, IsSound}
use gogoclaw.Storage.Messages.{StoredMessage, Row, store_row, load_row, scrubbed}
use gogoclaw.Engine.Session.{Session}
use gogoclaw.Engine.Manager.{
  SessionManager, Json, Store, get, get_or_create, to_stored, to_provider,
}
use gogoclaw.Engine.Manager.Laws.{get_or_create_again, persisted_message}

abbrev call : ToolCall
call = record { id = bytes "c1"; name = bytes "clock"; arguments = bytes "{}" }

abbrev clear : Crypto
clear = record {
  accepts = λ key. true;
  seal = λ key nonce text aad. text;
  unseal = λ key nonce text aad. some text;
  encode = λ xs. 1 ∷ xs;
  decode = λ xs. elim xs [ [] ↦ none | b ∷ bs ↦ some bs ];
}

clear-IsSound : IsSound clear
clear-IsSound = record {
  unseal-seal = λ key nonce text aad. refl;
  decode-encode = λ xs. refl;
  encode_nonempty = λ x xs e. cc;
}

-- JSON for one list of calls.
abbrev fixed : Json
fixed = record { marshal = λ calls. some (bytes "[clock]"); unmarshal = λ text. some (call ∷ []) }

abbrev store : Store
store = record {
  crypto = clear;
  key = some (bytes "key");
  scrubber = none;
  select = λ conv. some [];
}

abbrev empty : SessionManager
empty = record { sessions = []; known_conversations = []; has_store = true }

abbrev opened : Session
opened = record {
  conversation_id = bytes "conv";
  channel = bytes "tui";
  agent_profile = [];
  history = [];
  summarizing = false;
  pending_summary = none;
}

abbrev holding : SessionManager
holding = record empty {
  sessions = (record { channel = bytes "tui"; conversation_id = bytes "conv" }, opened) ∷ [];
}

created : get_or_create fixed store empty (bytes "tui") (bytes "conv") ≡ (ok opened, holding)
unfolding get_or_create
created = refl

get_or_create_again_example :
    (get holding (bytes "tui") (bytes "conv") ≡ some opened)
    × (get_or_create fixed store holding (bytes "tui") (bytes "conv") ≡ (ok opened, holding))
get_or_create_again_example =
    get_or_create_again fixed store empty (bytes "tui") (bytes "conv") created

abbrev said : Message
said = record {
  role = assistant_role;
  content = bytes "one moment";
  tool_calls = call ∷ [];
  tool_call_id = [];
}

abbrev nonce : Bytes
nonce = bytes "abcdefghijkl"

persisted_message_example :
    (row : Row) × (stored : StoredMessage) × (store_row clear
        (some (bytes "key"))
        none
        (some nonce)
        (some nonce)
        (to_stored fixed opened said (bytes "m1") 7)
      ≡ ok row)
    × (load_row clear (some (bytes "key")) row ≡ ok stored)
    × (to_provider fixed stored ≡ record said { content = scrubbed none said.content })
persisted_message_example =
    persisted_message fixed clear clear-IsSound (bytes "key") none opened said (bytes "m1") nonce
      nonce 7 (b'[', bytes "clock]", refl, refl) refl (omega arith) (omega arith)
