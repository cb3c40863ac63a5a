-- ===== src/Engine/Persisted/Tests.antt =====
-- A turn with the hook over a database: JSON as lengths and texts, and a cipher that seals nothing.
use gogoclaw.Base.{
  ℕ, zero, suc, ◌==◌, ◌≡◌, refl, ◌⊎◌, ap, true, false, if◌then◌else◌, none, some, List, [], ◌∷◌,
  ◌++◌, map, length, take, drop,
}
use gogoclaw.Base.Bytes.{Bytes, bytes}
use gogoclaw.Base.Outcome.{ok}
use gogoclaw.Provider.{Message, StreamChunk, ToolCall, ChatResponse, plain_message, user_role}
use gogoclaw.Storage.Encryption.{Crypto, IsSound}
use gogoclaw.Tools.Dispatcher.{ToolCallRequest, ToolCallResult}
use gogoclaw.Engine.Session.{Session, apply_pending_summary}
use gogoclaw.Engine.Manager.{Json, Store, Stamp}
use gogoclaw.Engine.Manager.Laws.{IsFaithful}
use gogoclaw.Engine.Manager.Database.{Faults, execute}
use gogoclaw.Engine.Turn.{Services, Engine, Turn, send}
use gogoclaw.Engine.Turn.Steps.{Ledger, IsErr, InStep}
use gogoclaw.Engine.Turn.Ledger.{send-InStep}
use gogoclaw.Engine.Turn.Stream.{send_stream}
use gogoclaw.Engine.Turn.Stream.Laws.{IsBroken, send_stream-InStep}
use gogoclaw.Engine.Persisted.{Setting, save, persisted}
use gogoclaw.Engine.Persisted.Laws.{persisted-Ledger}

abbrev text_field : Bytes → Bytes
text_field f = length f ∷ f

abbrev encode : List ToolCall → Bytes
encode [] = []
encode (c ∷ cs) = text_field c.id ++ (text_field c.name ++ (text_field c.arguments ++ encode cs))

-- A field, and what follows it.
abbrev read_field : Bytes → Bytes × Bytes
read_field [] = ([], [])
read_field (n ∷ bs) = (take n bs, drop n bs)

abbrev decode : ℕ → Bytes → List ToolCall
decode zero bs = []
decode (suc n) bs =
    let id = read_field bs in
    let name = read_field id.1 in
    let arguments = read_field name.1 in
    record { id = id.0; name = name.0; arguments = arguments.0 } ∷ decode n arguments.1

abbrev read_all : Bytes → List ToolCall
read_all [] = []
read_all (n ∷ bs) = decode n bs

abbrev json : Json
json = record {
  marshal = λ calls. some (length calls ∷ encode calls);
  unmarshal = λ text. some (read_all text);
}

take-append : (xs ys : Bytes) → take (length xs) (xs ++ ys) ≡ xs
take-append [] ys = refl
take-append (x ∷ xs) ys = ap (λ zs. x ∷ zs) (take-append xs ys)

drop-append : (xs ys : Bytes) → drop (length xs) (xs ++ ys) ≡ ys
drop-append [] ys = refl
drop-append (x ∷ xs) ys = drop-append xs ys

decode-encode : (cs : List ToolCall) → decode (length cs) (encode cs) ≡ cs
decode-encode [] = refl
decode-encode (c ∷ cs) =
    let third = text_field c.arguments ++ encode cs in
    let second = text_field c.name ++ third in
    rw
      (
        drop-append c.id second,
        take-append c.id second,
        drop-append c.name third,
        take-append c.name third,
        drop-append c.arguments (encode cs),
        take-append c.arguments (encode cs),
      )
      (ap (λ rest. c ∷ rest) (decode-encode cs))

faithful : (calls : List ToolCall) → IsFaithful json calls
faithful [] = tt
faithful (c ∷ cs) =
    (length (c ∷ cs), encode (c ∷ cs), refl, ap (λ calls. some calls) (decode-encode (c ∷ cs)))

abbrev clear : Crypto
clear = record {
  accepts = λ key. true;
  seal = λ key nonce text aad. text;
  unseal = λ key nonce text aad. some text;
  encode = λ xs. 1 ∷ xs;
  decode = λ xs. elim xs [ [] ↦ none | b ∷ bs ↦ some bs ];
}

clear-IsSound : IsSound clear
clear-IsSound = record {
  unseal-seal = λ key nonce text aad. refl;
  decode-encode = λ xs. refl;
  encode_nonempty = λ x xs e. cc;
}

abbrev nonce : Bytes
nonce = bytes "twelve bytes"

-- The fourth call cannot set the time of the conversation.
abbrev locked_at : ℕ → Faults
locked_at k = record {
  begin = none;
  count = none;
  create = none;
  insert = none;
  touch = if k == 3 then some (bytes "locked") else none;
  commit = none;
}

abbrev setting : Setting
setting = record {
  json = json;
  store = record {
    crypto = clear;
    key = some (bytes "key");
    scrubber = none;
    select = λ conv. some [];
  };
  text_of = λ e. bytes "persistence";
  stamp = λ k. record { id = k ∷ []; now = k; nonces = (some nonce, some nonce) };
  faults = locked_at;
}

abbrev call : ToolCall
call = record { id = bytes "c1"; name = bytes "clock"; arguments = bytes "{}" }

-- The first answer asks for a tool, and every later one is a text.
abbrev answer : ℕ → ChatResponse
answer zero = record { content = []; tool_calls = call ∷ [] }
answer (suc n) = record { content = bytes "noon"; tool_calls = [] }

abbrev spoken : List StreamChunk
spoken = record { content = bytes "noon"; tool_calls = []; error = none } ∷ []

abbrev answer_to : ToolCallRequest → ToolCallResult
answer_to c = record { call_id = c.id; content = bytes "12:00"; is_error = false }

abbrev scripted : Services
scripted = record {
  World = ℕ;
  chat = λ ms w. (ok (answer w), suc w);
  chat_stream = λ ms w. (ok spoken, suc w);
  dispatch = λ calls w. (map answer_to calls, w);
  on_message = λ s m w. (none, w);
}

ledger : Ledger (persisted setting scripted)
ledger =
    persisted-Ledger setting clear-IsSound (bytes "key") refl refl faithful
      (λ k. (nonce, nonce, refl, refl, refl)) scripted

abbrev session : Session
session = record {
  conversation_id = bytes "conv";
  channel = bytes "tui";
  agent_profile = bytes "base";
  history = [];
  summarizing = false;
  pending_summary = none;
}

abbrev engine : Engine
engine = record {
  persistent = true;
  has_dispatcher = true;
  assembler = none;
  system_prompt = bytes "be brief";
}

abbrev turn : Turn (persisted setting scripted)
turn = record {
  session = session;
  world = record {
    known = [];
    database = record { conversations = []; messages = [] };
    tick = 0;
    chats = 0;
    outer = 0;
  };
}

abbrev question : Bytes
question = bytes "time?"

abbrev asked : Message
asked = plain_message user_role question

send-InStep_example :
    (i : InStep ledger 10
      (record turn { session = apply_pending_summary session })
      (send engine question turn).1)
    × (IsErr (send engine question turn).0 ⊎ (i.beyond ≡ []))
send-InStep_example = send-InStep ledger engine refl question turn

send_stream-InStep_example :
    (i : InStep ledger 11
      (record turn { session = apply_pending_summary session })
      (send_stream engine question turn).1)
    × (IsBroken (send_stream engine question turn).0 ⊎ (i.beyond ≡ []))
send_stream-InStep_example = send_stream-InStep ledger engine refl question turn

-- The reply is stored, but the turn ends with an error and the session lacks it.
one_beyond :
    (length (send engine question turn).1.world.database.messages ≡ 4)
    × (length (send engine question turn).1.session.history ≡ 3)
unfolding send save apply_pending_summary gogoclaw.Engine.Session.append_message
    gogoclaw.Engine.Manager.to_stored gogoclaw.Storage.Messages.store_row
    gogoclaw.Storage.Encryption.encrypt execute gogoclaw.Engine.Turn.calls_message
    gogoclaw.Engine.Turn.tool_message
one_beyond = (refl, refl)
