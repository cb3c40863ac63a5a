-- ===== src/Engine/Turn/Shape.antt =====
-- What a turn that succeeds has added to the conversation.
use mathlib.Core.List.{append_assoc, append-nil}
use gogoclaw.Base.{
  ℕ, zero, suc, ◌≡◌, ◌≢◌, refl, sym, subst, ap, ◌∙◌, Bool, true, false, if◌then◌else◌, Option, none,
  some, List, [], ◌∷◌, ◌++◌, map, arith,
}
use gogoclaw.Base.Bytes.{Bytes}
use gogoclaw.Base.Outcome.{Outcome, ok, err}
use gogoclaw.Provider.{Message, ToolCall, ChatResponse, plain_message, user_role, assistant_role}
use gogoclaw.Tools.Dispatcher.{ToolCallRequest, ToolCallResult}
use gogoclaw.Engine.Session.{
  Session, append_message, apply_pending_summary, maybe_start_summarization,
}
use gogoclaw.Engine.Turn.{
  Services, Engine, EngineError, Turn, M, ◌>>=◌, fail, no_dispatcher, ◌>>◌, pure, persist_user,
  persist_assistant, persist_tool, persist_and_append, append_results, run_dispatch,
  dispatch_tool_calls, call_chat, answer_round, tool_round, until_text, run_rounds, run_tool_loop,
  wrap_up, send, tool_message, calls_message, to_request,
}

-- What the engine relies on: a dispatcher answers each call of a batch, in its place.
abbrev pub Answers : Services → Type 0
Answers S =
    (calls : List ToolCallRequest) (w : S.World)
    → map (λ r. r.call_id) (S.dispatch calls w).0 ≡ map (λ c. c.id) calls

-- The messages of a reply: rounds of tool calls, each followed by one result for every call in
-- the order of the calls, and then the final text.
pub data IsReply (text : Bytes) : List Message → Type 0 where
  final : {ms : List Message} → ms ≡ plain_message assistant_role text ∷ [] → IsReply text ms
  round :
      {ms : List Message} (content : Bytes) (calls : List ToolCall) (results : List ToolCallResult)
      (rest : List Message)
      → calls ≢ []
      → map (λ r. r.call_id) results ≡ map (λ c. c.id) calls
      → IsReply text rest
      → ms ≡ calls_message content calls ∷ (map tool_message results ++ rest)
      → IsReply text ms

-- A session that has grown by some messages and is otherwise as before.
abbrev grown : Session → List Message → Session
grown s ms = record s { history = s.history ++ ms }

grown-grown : (s : Session) (xs ys : List Message) → grown (grown s xs) ys ≡ grown s (xs ++ ys)
grown-grown s xs ys = ground (arith, append_assoc s.history xs ys)

ids-to_request :
    (calls : List ToolCall) → map (λ c. c.id) (map to_request calls) ≡ map (λ c. c.id) calls
unfolding to_request
ids-to_request [] = refl
ids-to_request (c ∷ cs) = ap (◌∷◌ c.id) (ids-to_request cs)

-- What one round adds, by its outcome.
abbrev RoundAdds : Option Bytes → List Message → Type 0
RoundAdds (some text) ms = ms ≡ plain_message assistant_role text ∷ []
RoundAdds none ms =
    (content : Bytes) × (calls : List ToolCall) × (results : List ToolCallResult) × (calls ≢ [])
    × (map (λ r. r.call_id) results ≡ map (λ c. c.id) calls)
    × (ms ≡ calls_message content calls ∷ map tool_message results)

IsReply-grown :
    (text : Bytes) (first rest : List Message)
    → RoundAdds none first
    → IsReply text rest
    → IsReply text (first ++ rest)
IsReply-grown text first rest (content, calls, results, some_calls, ids, same) reply =
    round content calls results rest some_calls ids reply (ap (λ ms. ms ++ rest) same)

module _ {S : Services} where
  >>=-eq-ok :
      {A B : Type 0} (m : M S A) (f : A → M S B) (t : Turn S) {b : B} {u : Turn S}
      → (m >>= f) t ≡ (ok b, u)
      → (a : A) × (v : Turn S) × (m t ≡ (ok a, v)) × (f a v ≡ (ok b, u))
  >>=-eq-ok {A} {B} m f t {b} {u} h = go (m t) h
    where
      go :
          (p : Outcome EngineError A × Turn S)
          → elim p.0 as (λ _. Outcome EngineError B × Turn S) [
            | ok a ↦ f a p.1
            | err e ↦ (err e, p.1)
          ]
            ≡ (ok b, u)
          → (a : A) × (v : Turn S) × (p ≡ (ok a, v)) × (f a v ≡ (ok b, u))
      go (ok a, v) k = (a, v, refl, k)
      go (err x, v) k = cc (ap (λ q. q.0) k)

  if-eq-ok :
      {A : Type 0} (b : Bool) (m : M S A) (x : EngineError) (t : Turn S) {a : A} {u : Turn S}
      → (if b then m else fail x) t ≡ (ok a, u)
      → m t ≡ (ok a, u)
  if-eq-ok true m x t h = h
  if-eq-ok false m x t h = cc (ap (λ q. q.0) h)

  persist_and_append_ok :
      (wrap : Bytes → EngineError) (e : Engine) (msg : Message) (t : Turn S) {x : Unit {0}}
      {u : Turn S}
      → persist_and_append wrap e msg t ≡ (ok x, u)
      → u.session ≡ append_message t.session msg
  unfolding persist_and_append
  persist_and_append_ok wrap e msg t h = ground arith

  append_results_ok :
      (e : Engine) (rs : List ToolCallResult) (t : Turn S) {x : Unit {0}} {u : Turn S}
      → append_results e rs t ≡ (ok x, u)
      → u.session ≡ grown t.session (map tool_message rs)
  unfolding append_results append_message
  append_results_ok e [] t h = ground (arith, append-nil t.session.history)
  append_results_ok e (r ∷ rs) t {u} h =
      let (a, v, first, rest) =
        >>=-eq-ok (persist_and_append persist_tool e (tool_message r)) (λ _. append_results e rs) t
          h in
      append_results_ok e rs v rest
      ∙ ap (λ s. grown s (map tool_message rs))
          (persist_and_append_ok persist_tool e (tool_message r) t first)
      ∙ grown-grown t.session (tool_message r ∷ []) (map tool_message rs)

  module _ (A : Answers S) (e : Engine) where
    dispatch_tool_calls_ok :
        (calls : List ToolCall) (t : Turn S) {x : Unit {0}} {u : Turn S}
        → dispatch_tool_calls e calls t ≡ (ok x, u)
        → (rs : List ToolCallResult) × (map (λ r. r.call_id) rs ≡ map (λ c. c.id) calls)
          × (u.session ≡ grown t.session (map tool_message rs))
    unfolding dispatch_tool_calls
    dispatch_tool_calls_ok calls t h =
        let requests = map to_request calls in
        let (results, world) = S.dispatch requests t.world in
        let accepted =
          if-eq-ok e.has_dispatcher (run_dispatch requests >>= append_results e) no_dispatcher t
            h in
        (
          results,
          A requests t.world ∙ ids-to_request calls,
          append_results_ok e results (record t { world = world }) accepted,
        )

    call_chat_ok :
        (t : Turn S) {resp : ChatResponse} {u : Turn S}
        → call_chat e t ≡ (ok resp, u)
        → u.session ≡ t.session
    unfolding call_chat
    call_chat_ok t h = ground arith

    answer_round_ok :
        (content : Bytes) (calls : List ToolCall) (t : Turn S) {r : Option Bytes} {u : Turn S}
        → answer_round e content calls t ≡ (ok r, u)
        → (ms : List Message) × (u.session ≡ grown t.session ms) × RoundAdds r ms
    unfolding answer_round append_message
    answer_round_ok content [] t {r} {u} h =
        let msg = plain_message assistant_role content in
        let (a, v, first, rest) =
          >>=-eq-ok (persist_and_append persist_assistant e msg) (λ _. pure (some content)) t h in
        subst (λ o. (ms : List Message) × (u.session ≡ grown t.session ms) × RoundAdds o ms)
          {x = some content} (ground arith)
          (
            msg ∷ [],
            ap (λ q. q.session) (sym (ap (λ q. q.1) rest))
                ∙ persist_and_append_ok persist_assistant e msg t first,
            refl,
          )
    answer_round_ok content (c ∷ cs) t {r} {u} h =
        let msg = calls_message content (c ∷ cs) in
        let (a, v, first, rest) =
          >>=-eq-ok (persist_and_append persist_assistant e msg)
            (λ _. dispatch_tool_calls e (c ∷ cs) >> pure none) t h in
        let (b, w, second, last) =
          >>=-eq-ok (dispatch_tool_calls e (c ∷ cs)) (λ _. pure none) v rest in
        let (results, ids, grew) = dispatch_tool_calls_ok (c ∷ cs) v second in
        subst (λ o. (ms : List Message) × (u.session ≡ grown t.session ms) × RoundAdds o ms)
          {x = none} (ground arith)
          (
            msg ∷ map tool_message results,
            ap (λ q. q.session) (sym (ap (λ q. q.1) last))
                ∙ grew
                ∙ ap (λ s. grown s (map tool_message results))
                    (persist_and_append_ok persist_assistant e msg t first)
                ∙ grown-grown t.session (msg ∷ []) (map tool_message results),
            (content, c ∷ cs, results, λ p. cc, ids, refl),
          )

    tool_round_ok :
        (t : Turn S) {r : Option Bytes} {u : Turn S}
        → tool_round e t ≡ (ok r, u)
        → (ms : List Message) × (u.session ≡ grown t.session ms) × RoundAdds r ms
    unfolding tool_round
    tool_round_ok t h =
        let answer = λ (resp : ChatResponse). answer_round {S = S} e resp.content resp.tool_calls in
        let (resp, v, first, rest) = >>=-eq-ok (call_chat e) answer t h in
        let (ms, grew, adds) = answer_round_ok resp.content resp.tool_calls v rest in
        (ms, grew ∙ ap (λ s. grown s ms) (call_chat_ok t first), adds)

    run_rounds_ok :
        (n : ℕ) (t : Turn S) {text : Bytes} {u : Turn S}
        → run_rounds n e t ≡ (ok text, u)
        → (ms : List Message) × (u.session ≡ grown t.session ms) × IsReply text ms
    unfolding run_rounds
    run_rounds_ok zero t h = cc (ap (λ q. q.0) h)
    run_rounds_ok (suc n) t {text} {u} h =
        let (r, v, first, rest) = >>=-eq-ok (tool_round e) (until_text (run_rounds n e)) t h in
        let (ms, grew, adds) = tool_round_ok t first in
        after r v ms grew adds rest (run_rounds_ok n v)
      where
        after :
            (r : Option Bytes) (v : Turn S) (ms : List Message)
            → v.session ≡ grown t.session ms
            → RoundAdds r ms
            → until_text (run_rounds n e) r v ≡ (ok text, u)
            → (run_rounds n e v ≡ (ok text, u)
                → (rest : List Message) × (u.session ≡ grown v.session rest) × IsReply text rest)
            → (all : List Message) × (u.session ≡ grown t.session all) × IsReply text all
        after (some reply) v ms grew adds k again = (
          ms,
          ap (λ q. q.session) (sym (ap (λ q. q.1) k)) ∙ grew,
          subst (λ o. IsReply o ms) (ground arith) (final adds),
        )
        after none v ms grew adds k again =
            let (rest, grew', reply) = again k in
            (
              ms ++ rest,
              grew' ∙ ap (λ s. grown s rest) grew ∙ grown-grown t.session ms rest,
              IsReply-grown text ms rest adds reply,
            )

    wrap_up_ok :
        (result : Bytes) (w : Turn S) {reply : Bytes} {snapshot : Option (List Message)}
        {u : Turn S}
        → wrap_up result w ≡ (ok (reply, snapshot), u)
        → (result ≡ reply)
          × (u.session.history ≡ w.session.history)
          × (snapshot ≡ (if w.session.summarizing then none else some u.session.history))
    unfolding wrap_up maybe_start_summarization
    wrap_up_ok result w h = ground arith

    -- With a dispatcher that answers each call in its place, a `Send` that succeeds has added the user's message and a reply to the session as the
    -- pending summary left it: complete rounds of tool calls, each call answered in its place, and
    -- then the text that it returns. Unless a summarization was running, one is started on the
    -- history so extended.
    pub send_ok :
        (text : Bytes) (t : Turn S) {reply : Bytes} {snapshot : Option (List Message)} {u : Turn S}
        → send e text t ≡ (ok (reply, snapshot), u)
        → let before = apply_pending_summary t.session in
          (ms : List Message) × (u.session.history
            ≡ before.history ++ (plain_message user_role text ∷ ms))
          × IsReply reply ms
          × (snapshot ≡ (if before.summarizing then none else some u.session.history))
    unfolding send
    send_ok text t {reply} {snapshot} {u} h =
        let msg = plain_message user_role text in
        let start : Turn S = record t { session = apply_pending_summary t.session } in
        let (a, v, first, rest) =
          >>=-eq-ok (persist_and_append persist_user e msg) (λ _. run_tool_loop e >>= wrap_up) start
            h in
        let (result, w, second, last) = >>=-eq-ok (run_tool_loop e) wrap_up v rest in
        let (ms, grew, is_reply) = run_rounds_ok 10 v second in
        let (same, kept, started) = wrap_up_ok result w last in
        let before = apply_pending_summary t.session in
        let whole =
          grew
          ∙ ap (λ s. grown s ms) (persist_and_append_ok persist_user e msg start first)
          ∙ grown-grown before (msg ∷ []) ms in
        (
          ms,
          kept ∙ ap (λ s. s.history) whole,
          subst (λ r. IsReply r ms) same is_reply,
          started ∙ ap (λ s. if s.summarizing then none else some u.session.history) whole,
        )
