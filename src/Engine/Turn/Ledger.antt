-- ===== src/Engine/Turn/Ledger.antt =====
-- The session and the store stay in step through a turn, and the provider is called a bounded
-- number of times, whatever fails.
use mathlib.Core.List.{append-nil}
use gogoclaw.Base.{
  ℕ, zero, suc, ◌+◌, ◌≡◌, refl, sym, ap, ◌∙◌, true, inl, inr, ◌⊎◌, Option, none, some, List, [],
  ◌∷◌, ◌++◌, map, arith, Option-cases,
}
use gogoclaw.Base.Bytes.{Bytes}
use gogoclaw.Base.Outcome.{Outcome-cases}
use gogoclaw.Provider.{Message, ToolCall, plain_message, user_role, assistant_role}
use gogoclaw.Tools.Dispatcher.{ToolCallRequest, ToolCallResult}
use gogoclaw.Engine.Session.{append_message, apply_pending_summary, maybe_start_summarization}
use gogoclaw.Engine.Turn.{
  Services, Engine, EngineError, too_many_rounds, Turn, M, ◌>>=◌, ◌>>◌, pure, fail, no_dispatcher,
  answer_round, until_text, calls_message, persist_tool, persist_assistant, persist_user,
  persist_and_append, tool_message, to_request, build_messages, persist_and_append_tool,
  persist_and_append_assistant, append_results, run_dispatch, dispatch_tool_calls, call_chat,
  tool_round, run_rounds, start_summarization, wrap_up, send,
}
use gogoclaw.Engine.Turn.Steps.{
  Ledger, IsErr, either_way, InStep, idle, weaken, IsOk, Keeps, Keeps-pure, Keeps-fail, Keeps-bind,
  Keeps-then, Keeps-if,
}

module _ {S : Services} (L : Ledger S) (e : Engine) (on : e.persistent ≡ true) where
  pub persist_and_append-Keeps :
      (wrap : Bytes → EngineError) (msg : Message) → Keeps L 0 (persist_and_append wrap e msg)
  unfolding persist_and_append append_message
  persist_and_append-Keeps wrap msg t =
      let old = L.saved t.session.conversation_id t.world in
      let less = λ (more : List Message). ap (λ (x : List Message). x ++ more) (append-nil old) in
      elim (Option-cases (S.on_message t.session msg t.world).0) [
        | inl fine ↦
            rw (on, persist_and_append, fine)
              (
                record {
                  added = msg ∷ [];
                  beyond = [];
                  same_conversation = refl;
                  history = refl;
                  stored = L.saved-on_message t.session msg t.world fine ∙ sym (append-nil _);
                  few = omega arith;
                  calls = omega (arith, L.chats-on_message t.session msg t.world);
                },
                λ p. refl,
              )
        | inr (text, failed) ↦ elim (L.saved-on_message_failed t.session msg t.world failed) [
          | inl lost ↦
              rw (on, persist_and_append, failed)
                (
                  record {
                    added = [];
                    beyond = [];
                    same_conversation = refl;
                    history = sym (append-nil t.session.history);
                    stored = lost ∙ sym (append-nil old) ∙ sym (less []);
                    few = omega arith;
                    calls = omega (arith, L.chats-on_message t.session msg t.world);
                  },
                  λ p. refl,
                )
          | inr stored ↦
              rw (on, persist_and_append, failed)
                (
                  record {
                    added = [];
                    beyond = L.view msg ∷ [];
                    same_conversation = refl;
                    history = sym (append-nil t.session.history);
                    stored = stored ∙ sym (less (L.view msg ∷ []));
                    few = omega arith;
                    calls = omega (arith, L.chats-on_message t.session msg t.world);
                  },
                  λ p. absurd p,
                )
        ]
      ]

  append_results-Keeps : (rs : List ToolCallResult) → Keeps L 0 (append_results e rs)
  unfolding append_results
  append_results-Keeps [] = Keeps-pure L tt
  append_results-Keeps (r ∷ rs) =
      Keeps-then L 0 0 (persist_and_append_tool e (tool_message r)) (append_results e rs)
        (unfold persist_and_append_tool in persist_and_append-Keeps persist_tool (tool_message r))
        (append_results-Keeps rs)

  run_dispatch-Keeps : (calls : List ToolCallRequest) → Keeps L 0 (run_dispatch {S = S} calls)
  unfolding run_dispatch
  run_dispatch-Keeps calls t =
      let (i, fine) =
        idle L 0 t (run_dispatch {S = S} calls t).1 refl refl
          (λ c. L.saved-dispatch calls t.world c) (omega (arith, L.chats-dispatch calls t.world)) in
      (i, λ p. fine)

  pub dispatch_tool_calls-Keeps : (calls : List ToolCall) → Keeps L 0 (dispatch_tool_calls e calls)
  unfolding dispatch_tool_calls
  dispatch_tool_calls-Keeps calls =
      Keeps-if L 0 e.has_dispatcher (run_dispatch (map to_request calls) >>= append_results e)
        (fail no_dispatcher)
        (Keeps-bind L 0 0 (run_dispatch (map to_request calls)) (append_results e)
          (run_dispatch-Keeps (map to_request calls)) append_results-Keeps)
        (Keeps-fail L (Unit {0}) no_dispatcher)

  call_chat-Keeps : Keeps L 1 (call_chat e)
  unfolding call_chat
  call_chat-Keeps t =
      let ms = build_messages e t.session in
      let after : Turn S = record t { world = (S.chat ms t.world).1 } in
      let (i, fine) =
        idle L 1 t after refl refl (λ c. L.saved-chat ms t.world c)
          (omega (arith, L.chats-chat ms t.world)) in
      elim (Outcome-cases (S.chat ms t.world).0) [
        | inl (resp, ok_e) ↦ rw (ok_e, call_chat) (i, λ p. fine)
        | inr (text, err_e) ↦ rw (err_e, call_chat) (i, λ p. fine)
      ]

  answer_round-Keeps :
      (content : Bytes) (calls : List ToolCall) → Keeps L 0 (answer_round e content calls)
  unfolding answer_round persist_and_append_assistant
  answer_round-Keeps content [] =
      Keeps-then L 0 0
        (persist_and_append persist_assistant e (plain_message assistant_role content))
        (pure (some content))
        (persist_and_append-Keeps persist_assistant (plain_message assistant_role content))
        (Keeps-pure L (some content))
  answer_round-Keeps content (c ∷ cs) =
      Keeps-then L 0 0 (persist_and_append persist_assistant e (calls_message content (c ∷ cs)))
        (dispatch_tool_calls e (c ∷ cs) >> pure none)
        (persist_and_append-Keeps persist_assistant (calls_message content (c ∷ cs)))
        (Keeps-then L 0 0 (dispatch_tool_calls e (c ∷ cs)) (pure none)
          (dispatch_tool_calls-Keeps (c ∷ cs)) (Keeps-pure L {A = Option Bytes} none))

  tool_round-Keeps : Keeps L 1 (tool_round e)
  unfolding tool_round
  tool_round-Keeps =
      Keeps-bind L 1 0 (call_chat e) (λ resp. answer_round e resp.content resp.tool_calls)
        call_chat-Keeps (λ resp. answer_round-Keeps resp.content resp.tool_calls)

  until_text-Keeps :
      (n : ℕ) (again : M S Bytes) (r : Option Bytes)
      → Keeps L n again
      → Keeps L n (until_text again r)
  until_text-Keeps n again (some text) k =
      weaken L IsOk 0 n (pure text) (omega arith) (Keeps-pure L text)
  until_text-Keeps n again none k = k

  pub run_rounds-Keeps : (n : ℕ) → Keeps L n (run_rounds n e)
  unfolding run_rounds
  run_rounds-Keeps zero = Keeps-fail L Bytes too_many_rounds
  run_rounds-Keeps (suc n) =
      weaken L IsOk (1 + n) (suc n) (tool_round e >>= until_text (run_rounds n e)) (omega arith) (
        Keeps-bind L 1 n (tool_round e) (until_text (run_rounds n e)) tool_round-Keeps
          (λ r. until_text-Keeps n (run_rounds n e) r (run_rounds-Keeps n)))

  pub start_summarization-Keeps : Keeps L 0 (start_summarization {S = S})
  unfolding start_summarization maybe_start_summarization
  start_summarization-Keeps t =
      let (i, fine) =
        idle L 0 t (start_summarization {S = S} t).1 (ground arith) (ground arith) (λ c. refl)
          (omega arith) in
      (i, λ p. fine)

  wrap_up-Keeps : (result : Bytes) → Keeps L 0 (wrap_up {S = S} result)
  unfolding wrap_up
  wrap_up-Keeps result =
      Keeps-bind L {B = Bytes × Option (List Message)} 0 0 start_summarization
        (λ snapshot. pure (result, snapshot)) start_summarization-Keeps
        (λ snapshot. Keeps-pure L {A = Bytes × Option (List Message)} (result, snapshot))

  -- With a hook that keeps the ledger: wherever `Send` stopped, its stored conversation has grown
  -- by what is read back of the messages that it added to the session after the pending summary was
  -- applied, in the same order, and by one message more at most; `Send` returned an error or there is
  -- no such message; and the provider was called ten times at most.
  pub send-InStep :
      (text : Bytes) (t : Turn S)
      → (i : InStep L 10 (record t { session = apply_pending_summary t.session }) (send e text t).1)
        × (IsErr (send e text t).0 ⊎ (i.beyond ≡ []))
  unfolding send
  send-InStep text t =
      let start : Turn S = record t { session = apply_pending_summary t.session } in
      let (i, fine) =
        Keeps-then L 0 10 (persist_and_append persist_user e (plain_message user_role text))
          (run_rounds 10 e >>= wrap_up)
          (persist_and_append-Keeps persist_user (plain_message user_role text))
          (Keeps-bind L 10 0 (run_rounds 10 e) wrap_up (run_rounds-Keeps 10) wrap_up-Keeps) start in
      (i, either_way (send e text t).0 fine)
