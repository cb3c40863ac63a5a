-- ===== src/Engine/Turn.antt =====
-- internal/engine/engine.go: a turn of the conversation. The provider, the dispatcher and the
-- persistence hook are the interface `Services`; a turn runs on the session and their world.
pub mod Steps
pub mod Ledger
pub mod Shape
pub mod Stream
use gogoclaw.Base.{
  ℕ, zero, suc, if◌then◌else◌, Bool, true, false, Option, none, some, List, [], ◌∷◌, ◌++◌, map,
}
use gogoclaw.Base.Bytes.{Bytes, bytes}
use gogoclaw.Base.Outcome.{Outcome, ok, err}
use gogoclaw.Provider.{
  StreamChunk, Message, ToolCall, ChatResponse, plain_message, system_role, user_role,
  assistant_role, tool_role,
}
use gogoclaw.Tools.Dispatcher.{ToolCallRequest, ToolCallResult}
use gogoclaw.Engine.Context.{Assembler, assemble}
use gogoclaw.Engine.Session.{
  Session, append_message, apply_pending_summary, maybe_start_summarization,
}

abbrev pub max_tool_rounds : ℕ
max_tool_rounds = 10

-- An error is its text. `on_message` is the hook's three methods, which differ in name only; they are
-- those of the repository in Engine/Persisted.
pub record Services : Type 1 where
  pub World : Type 0
  pub chat : List Message → World → Outcome Bytes ChatResponse × World
  pub chat_stream : List Message → World → Outcome Bytes (List StreamChunk) × World
  pub dispatch : List ToolCallRequest → World → List ToolCallResult × World
  pub on_message : Session → Message → World → Option Bytes × World

pub data EngineError : Type 0 where
  persist_user persist_assistant persist_tool chat_failed stream_failed : Bytes → EngineError
  no_dispatcher too_many_rounds : EngineError

-- Whether `persistence` and `dispatcher` are set, and the rest of the `Engine`.
pub record Engine : Type 0 where
  pub persistent : Bool
  pub has_dispatcher : Bool
  pub assembler : Option Assembler
  pub system_prompt : Bytes

unfoldable pub to_request : ToolCall → ToolCallRequest
to_request tc = record { id = tc.id; name = tc.name; arguments = tc.arguments }

unfoldable pub tool_message : ToolCallResult → Message
tool_message r = record {
  role = tool_role;
  content = r.content;
  tool_calls = [];
  tool_call_id = r.call_id;
}

unfoldable pub calls_message : Bytes → List ToolCall → Message
calls_message content calls = record {
  role = assistant_role;
  content = content;
  tool_calls = calls;
  tool_call_id = [];
}

unfoldable pub build_messages : Engine → Session → List Message
build_messages e session = elim e.assembler [
  | some ca ↦ assemble ca e.system_prompt session.history 500
  | none ↦ elim e.system_prompt [
    | [] ↦ session.history
    | c ∷ cs ↦ plain_message system_role (c ∷ cs) ∷ session.history
  ]
]

module _ (S : Services) where
  pub record Turn : Type 0 where
    pub session : Session
    pub world : S.World

  abbrev pub M : Type 0 → Type 0
  M A = Turn → Outcome EngineError A × Turn

module _ {S : Services} where
  abbrev pub pure : {A : Type 0} → A → M S A
  pure a t = (ok a, t)

  abbrev pub fail : {A : Type 0} → EngineError → M S A
  fail e t = (err e, t)

  infixl 5 ◌>>=◌ ◌>>◌
  abbrev pub ◌>>=◌ : {A B : Type 0} → M S A → (A → M S B) → M S B
  ◌>>=◌ m f t = let (o, t') = m t in elim o [ ok a ↦ f a t' | err e ↦ (err e, t') ]

  abbrev pub ◌>>◌ : {A B : Type 0} → M S A → M S B → M S B
  m >> k = m >>= λ _. k

  -- The hook runs first, and the session changes only if it succeeds.
  pub persist_and_append : (Bytes → EngineError) → Engine → Message → M S (Unit {0})
  unfolding append_message
  persist_and_append wrap e msg t =
      let appended : Turn S = record t { session = append_message t.session msg } in
      if e.persistent
      then (let (failure, world) = S.on_message t.session msg t.world in
          elim failure [
            | some text ↦ (err (wrap text), record t { world = world })
            | none ↦ (ok tt, record appended { world = world })
          ])
      else (ok tt, appended)

  persist_and_append_user : Engine → Message → M S (Unit {0})
  unfolding persist_and_append
  persist_and_append_user = persist_and_append persist_user

  persist_and_append_assistant : Engine → Message → M S (Unit {0})
  unfolding persist_and_append
  persist_and_append_assistant = persist_and_append persist_assistant

  persist_and_append_tool : Engine → Message → M S (Unit {0})
  unfolding persist_and_append
  persist_and_append_tool = persist_and_append persist_tool

  append_results : Engine → List ToolCallResult → M S (Unit {0})
  unfolding persist_and_append_tool
  append_results e [] = pure tt
  append_results e (r ∷ rs) = do persist_and_append_tool e (tool_message r); append_results e rs

  run_dispatch : List ToolCallRequest → M S (List ToolCallResult)
  run_dispatch calls t =
      let (results, world) = S.dispatch calls t.world in (ok results, record t { world = world })

  pub dispatch_tool_calls : Engine → List ToolCall → M S (Unit {0})
  unfolding run_dispatch append_results
  dispatch_tool_calls e calls =
      if e.has_dispatcher
      then (do results ← run_dispatch (map to_request calls); append_results e results)
      else fail no_dispatcher

  call_chat : Engine → M S ChatResponse
  call_chat e t =
      let (answer, world) = S.chat (build_messages e t.session) t.world in
      elim answer [
        | ok resp ↦ (ok resp, record t { world = world })
        | err text ↦ (err (chat_failed text), record t { world = world })
      ]

  -- A response: the final text, or `none` when its tool calls were dispatched.
  answer_round : Engine → Bytes → List ToolCall → M S (Option Bytes)
  unfolding persist_and_append_assistant dispatch_tool_calls
  answer_round e content [] = do
    persist_and_append_assistant e (plain_message assistant_role content)
    pure (some content)
  answer_round e content (c ∷ cs) = do
    persist_and_append_assistant e (calls_message content (c ∷ cs))
    dispatch_tool_calls e (c ∷ cs)
    pure none

  tool_round : Engine → M S (Option Bytes)
  unfolding call_chat answer_round
  tool_round e = do resp ← call_chat e; answer_round e resp.content resp.tool_calls

  abbrev until_text : M S Bytes → Option Bytes → M S Bytes
  until_text again (some text) = pure text
  until_text again none = again

  -- The rounds left.
  pub run_rounds : ℕ → Engine → M S Bytes
  unfolding tool_round
  run_rounds zero e = fail too_many_rounds
  run_rounds (suc n) e = do r ← tool_round e; until_text (run_rounds n e) r

  run_tool_loop : Engine → M S Bytes
  unfolding run_rounds
  run_tool_loop = run_rounds max_tool_rounds

  apply_pending : M S (Unit {0})
  apply_pending t = (ok tt, record t { session = apply_pending_summary t.session })

  -- The snapshot is what the summarizer's goroutine is started on.
  pub start_summarization : M S (Option (List Message))
  start_summarization t =
      let (session, snapshot) = maybe_start_summarization t.session in
      (ok snapshot, record t { session = session })

  -- What `Send` does with the text of a loop that succeeded.
  wrap_up : Bytes → M S (Bytes × Option (List Message))
  unfolding start_summarization
  wrap_up result = do snapshot ← start_summarization; pure (result, snapshot)

  -- `Send`: the reply, with the snapshot that a summarization was started on.
  unfoldable pub send : Engine → Bytes → M S (Bytes × Option (List Message))
  unfolding apply_pending persist_and_append_user run_tool_loop wrap_up
  send e text = do
    apply_pending
    persist_and_append_user e (plain_message user_role text)
    result ← run_tool_loop e
    wrap_up result
