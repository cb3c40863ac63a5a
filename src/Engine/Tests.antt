-- ===== src/Engine/Tests.antt =====
-- A provider with a script, and a dispatcher with one tool; turns and schedules on them.

use gogoclaw.Base.{
  ℕ, zero, suc, ◌≤◌, ◌≡◌, refl, ap, arith, true, false, if◌then◌else◌, none, some, List, [], ◌∷◌,
  ◌++◌, map,
}
use gogoclaw.Base.Bytes.{Bytes, bytes, bytes_eq}
use gogoclaw.Base.Outcome.{ok}
use mathlib.Core.List.{reverse}
use gogoclaw.Provider.{
  StreamChunk, Message, ToolCall, ChatResponse, plain_message, user_role, assistant_role,
  system_role,
}
use gogoclaw.Tools.Dispatcher.{ToolCallRequest, ToolCallResult}
use gogoclaw.Engine.Context.{
  Assembler, new_context_assembler, assemble, enrich_with_memories, history_budget,
}
use gogoclaw.Engine.Context.Laws.{cost, IsFull, prompt_part, assemble_recent}
use gogoclaw.Engine.Session.{
  Session, PendingSummary, append_message, apply_pending_summary, reconcile_history,
}
use gogoclaw.Engine.Session.Reconcile.{reconcile_history-append, reconcile_history_discarded}
use gogoclaw.Engine.Session.Summary.{Action, say, start, deliver, finish, run}
use gogoclaw.Engine.Session.Summary.Safety.{IsCalm, fresh, watch, apply_lossless}
use gogoclaw.Engine.Session.Summary.Stale.{overlapping, opened, run-overlapping}
use gogoclaw.Engine.Turn.{Services, Engine, Turn, send}
use gogoclaw.Engine.Turn.Shape.{Answers, IsReply, send_ok}
use gogoclaw.Engine.Turn.Stream.{passed, full_content, all_calls, send_stream}
use gogoclaw.Engine.Turn.Stream.Laws.{send_stream_text}

record World : Type 0 where
  store : Bytes → List Message
  chats : ℕ

abbrev call : ToolCall
call = record { id = bytes "c1"; name = bytes "clock"; arguments = bytes "{}" }

-- The first answer asks for a tool, and every later one is a text.
abbrev answer : ℕ → ChatResponse
answer zero = record { content = []; tool_calls = call ∷ [] }
answer (suc n) = record { content = bytes "noon"; tool_calls = [] }

abbrev broken : List StreamChunk
broken =
    record { content = bytes "no"; tool_calls = []; error = none }
    ∷ record { content = []; tool_calls = []; error = some (bytes "reset") }
    ∷ []

abbrev answer_to : ToolCallRequest → ToolCallResult
answer_to c = record { call_id = c.id; content = bytes "12:00"; is_error = false }

abbrev put : World → Bytes → Message → World
put w conv m = record w {
  store = λ c. if bytes_eq conv c then w.store c ++ (m ∷ []) else w.store c;
}

abbrev scripted : Services
scripted = record {
  World = World;
  chat = λ ms w. (ok (answer w.chats), record w { chats = suc w.chats });
  chat_stream = λ ms w. (ok broken, record w { chats = suc w.chats });
  dispatch = λ calls w. (map answer_to calls, w);
  on_message = λ s m w. (none, put w s.conversation_id m);
}

answered : Answers scripted
answered [] w = refl
answered (c ∷ cs) w = ap (◌∷◌ c.id) (answered cs w)

abbrev session : Session
session = record {
  conversation_id = bytes "conv";
  channel = bytes "tui";
  agent_profile = bytes "base";
  history = [];
  summarizing = false;
  pending_summary = none;
}

abbrev engine : Engine
engine = record {
  persistent = true;
  has_dispatcher = true;
  assembler = none;
  system_prompt = bytes "be brief";
}

abbrev turn : Turn scripted
turn = record { session = session; world = record { store = λ c. []; chats = 0 } }

abbrev question : Bytes
question = bytes "time?"

abbrev silent : Engine
silent = record engine { persistent = false }

send_stream_text_example :
    (send_stream silent question turn).0
      ≡ ok (
        map passed broken ++ [],
        some (plain_message user_role question ∷ plain_message assistant_role (bytes "no") ∷ []),
      )
    × ((send_stream silent question turn).1.session.history
        ≡ plain_message user_role question ∷ plain_message assistant_role (bytes "no") ∷ [])
unfolding append_message apply_pending_summary full_content all_calls
send_stream_text_example = send_stream_text silent refl question turn refl refl

abbrev after : Turn scripted
after = (send engine question turn).1

noon : send engine question turn ≡ (ok (bytes "noon", some after.session.history), after)
unfolding send gogoclaw.Engine.Session.maybe_start_summarization apply_pending_summary
noon = refl

send_ok_example :
    (ms : List Message) × (after.session.history ≡ [] ++ (plain_message user_role question ∷ ms))
    × IsReply (bytes "noon") ms
    × (some after.session.history ≡ (if false then none else some after.session.history))
unfolding apply_pending_summary
send_ok_example = send_ok answered engine question turn noon

abbrev note : Bytes → Message
note text = plain_message user_role text

abbrev one : List Message
one = note (bytes "1") ∷ []

abbrev two : List Message
two = note (bytes "1") ∷ note (bytes "2") ∷ []

abbrev digest : List Message
digest = plain_message system_role (bytes "so far") ∷ []

reconcile_history-append_example :
    (reconcile_history
      (record session { history = two })
      (record { remaining_history = some digest; snapshot_len = 1 })).history
    ≡ digest ++ (note (bytes "2") ∷ [])
reconcile_history-append_example =
    reconcile_history-append (record session { history = two }) one (note (bytes "2") ∷ []) digest
      refl

reconcile_history_discarded_example :
    reconcile_history session (record { remaining_history = some digest; snapshot_len = 1 })
    ≡ session
reconcile_history_discarded_example =
    reconcile_history_discarded session
      (record { remaining_history = some digest; snapshot_len = 1 }) (omega arith)

abbrev calm_schedule : List Action
calm_schedule =
    say (note (bytes "1")) ∷ start ∷ say (note (bytes "2")) ∷ deliver digest ∷ finish ∷ []

calm : IsCalm calm_schedule (fresh session).now
calm = (tt, (tt, (tt, (tt, (tt, tt)))))

apply_lossless_example :
    (apply_pending_summary (watch calm_schedule (fresh session)).now.session).history
    ≡ digest ++ (watch calm_schedule (fresh session)).behind
unfolding watch
apply_lossless_example =
    apply_lossless calm_schedule session
      (record { remaining_history = some digest; snapshot_len = 1 }) digest calm refl refl

-- What is behind the snapshot here.
behind_sample : (watch calm_schedule (fresh session)).behind ≡ note (bytes "2") ∷ []
unfolding watch
behind_sample = refl

run-overlapping_example :
    (run (overlapping two [] two digest digest) (opened session)).session.history
    ≡ digest ++ (note (bytes "2") ∷ [])
run-overlapping_example =
    run-overlapping session two [] two digest digest (omega arith) (omega arith)

abbrev small : Assembler
small = new_context_assembler 2000 none

assemble_recent_example :
    let full = enrich_with_memories small (bytes "be brief") two in
    let budget = history_budget small full 500 in
    (older : List Message) × (included : List Message) × (two ≡ reverse older ++ included)
    × (assemble small (bytes "be brief") two 500 ≡ prompt_part small full ++ included)
    × (cost small included ≤ budget)
    × IsFull small budget included older
assemble_recent_example = assemble_recent small (bytes "be brief") two 500

assemble_sample :
    assemble small (bytes "be brief") two 500 ≡ plain_message system_role (bytes "be brief") ∷ two
unfolding assemble new_context_assembler enrich_with_memories history_budget
    gogoclaw.Engine.Context.estimate_tokens
assemble_sample = refl
