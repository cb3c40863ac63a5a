-- ===== src/Engine/Turn/Stream/Laws.antt =====
-- A streamed turn keeps the session and the store in step, and what it adds to them.
use mathlib.Core.List.{Memᴰ}
use gogoclaw.Base.{
  ℕ, ◌≡◌, refl, ap, ◌∙◌, true, false, inl, inr, ◌⊎◌, Option, none, some, List, [], ◌∷◌, ◌++◌, map,
  All, arith, if◌then◌else◌,
}
use gogoclaw.Base.Bytes.{Bytes, bytes}
use gogoclaw.Base.Outcome.{Outcome, ok, err, Outcome-cases}
use gogoclaw.Provider.{StreamChunk, Message, ToolCall, plain_message, user_role, assistant_role}
use gogoclaw.Engine.Session.{append_message, apply_pending_summary, maybe_start_summarization}
use gogoclaw.Engine.Turn.{
  Services, EngineError, Engine, Turn, M, ◌>>=◌, ◌>>◌, pure, calls_message, build_messages,
  persist_user, persist_assistant, persist_and_append, persist_and_append_user,
  persist_and_append_assistant, dispatch_tool_calls, run_rounds, run_tool_loop, start_summarization,
}
use gogoclaw.Engine.Turn.Steps.{
  Ledger, IsOk, InStep, idle, InStep-weaken, InStep-trans, weaken, KeepsIf, KeepsIf-bind,
  KeepsIf-pure, Keeps, Keeps-pure, Keeps-bind, Keeps-then,
}
use gogoclaw.Engine.Turn.Ledger.{
  persist_and_append-Keeps, dispatch_tool_calls-Keeps, run_rounds-Keeps, start_summarization-Keeps,
}
use gogoclaw.Engine.Turn.Stream.{
  OutChunk, passed, final_text, failed, full_content, all_calls, call_stream, after_stream, settle,
  behind, stream_rest, send_stream,
}

-- A chunk that is no error of the turn itself.
abbrev pub IsPlain : OutChunk → Type 0
IsPlain (passed c) = Unit {0}
IsPlain (final_text text) = Unit {0}
IsPlain (failed x) = ⊥

-- A channel without such an error.
abbrev pub IsUnbroken : Outcome EngineError (List OutChunk × Option (List Message)) → Type 0
IsUnbroken (ok (chunks, snapshot)) = All IsPlain chunks
IsUnbroken (err x) = ⊥

-- An error, or a channel with an error of the turn.
abbrev pub IsBroken : Outcome EngineError (List OutChunk × Option (List Message)) → Type 0
IsBroken (ok (chunks, snapshot)) = (x : EngineError) × Memᴰ (failed x) chunks
IsBroken (err x) = Unit {0}

failed_cases :
    (chunks : List OutChunk) → ((x : EngineError) × Memᴰ (failed x) chunks) ⊎ All IsPlain chunks
failed_cases [] = inr tt
failed_cases (failed x ∷ cs) = inl (x, Memᴰ.head refl)
failed_cases (passed c ∷ cs) = elim (failed_cases cs) [
  | inl (x, i) ↦ inl (x, Memᴰ.tail i)
  | inr plain ↦ inr (tt, plain)
]
failed_cases (final_text text ∷ cs) = elim (failed_cases cs) [
  | inl (x, i) ↦ inl (x, Memᴰ.tail i)
  | inr plain ↦ inr (tt, plain)
]

channel_cases :
    {B : Type 0} (o : Outcome EngineError (List OutChunk × Option (List Message)))
    → (IsUnbroken o → B)
    → IsBroken o ⊎ B
channel_cases (err x) f = inl tt
channel_cases (ok (chunks, snapshot)) f = elim (failed_cases chunks) [
  | inl bad ↦ inl bad
  | inr plain ↦ inr (f plain)
]

All-append-right : {A : Type 0} (P : A → Type 0) (xs ys : List A) → All P (xs ++ ys) → All P ys
All-append-right P [] ys a = a
All-append-right P (x ∷ xs) ys a = All-append-right P xs ys a.1

module _ {S : Services} (L : Ledger S) (e : Engine) (on : e.persistent ≡ true) where
  call_stream-Keeps : Keeps L 1 (call_stream e)
  unfolding call_stream
  call_stream-Keeps t =
      let ms = build_messages e t.session in
      let after : Turn S = record t { world = (S.chat_stream ms t.world).1 } in
      let (i, fine) =
        idle L 1 t after refl refl (λ c. L.saved-chat_stream ms t.world c)
          (omega (arith, L.chats-chat_stream ms t.world)) in
      elim (Outcome-cases (S.chat_stream ms t.world).0) [
        | inl (resp, ok_e) ↦ rw (ok_e, call_stream) (i, λ p. fine)
        | inr (text, err_e) ↦ rw (err_e, call_stream) (i, λ p. fine)
      ]

  after_stream-Keeps :
      (content : Bytes) (calls : List ToolCall) → Keeps L 10 (after_stream e content calls)
  unfolding after_stream persist_and_append_assistant run_tool_loop
  after_stream-Keeps content [] =
      let saying = persist_and_append persist_assistant e (plain_message assistant_role content) in
      weaken L IsOk 0 10 (saying >> pure []) (omega arith) (
        Keeps-then L 0 0 saying (pure [])
          (persist_and_append-Keeps L e on persist_assistant (plain_message assistant_role content))
          (Keeps-pure L {A = List OutChunk} []))
  after_stream-Keeps content (c ∷ cs) =
      let ending = λ (text : Bytes). pure {S = S} (final_text (bytes "\n" ++ text) ∷ []) in
      Keeps-then L 0 10 (persist_and_append persist_assistant e (calls_message content (c ∷ cs)))
        (dispatch_tool_calls e (c ∷ cs) >> (run_rounds 10 e >>= ending))
        (persist_and_append-Keeps L e on persist_assistant (calls_message content (c ∷ cs)))
        (Keeps-then L 0 10 (dispatch_tool_calls e (c ∷ cs)) (run_rounds 10 e >>= ending)
          (dispatch_tool_calls-Keeps L e on (c ∷ cs))
          (Keeps-bind L 10 0 (run_rounds 10 e) ending (run_rounds-Keeps L e on 10)
            (λ text. Keeps-pure L (final_text (bytes "\n" ++ text) ∷ []))))

  settle-Keeps : (k : ℕ) (m : M S (List OutChunk)) → Keeps L k m → KeepsIf L IsUnbroken k (settle m)
  unfolding settle
  settle-Keeps k m keep t = elim (Outcome-cases (m t).0) [
    | inl (chunks, fine) ↦
        let (i, whole) = keep t in
        let (j, done) =
          Keeps-bind L {B = List OutChunk × Option (List Message)} 0 0 start_summarization
            (λ snapshot. pure (chunks, snapshot)) (start_summarization-Keeps L e on)
            (λ snapshot.
              Keeps-pure L {A = List OutChunk × Option (List Message)} (chunks, snapshot))
            (m t).1 in
        let (c, same) = InStep-trans L i j (whole (rw fine tt)) in
        let (d, same') = InStep-weaken L k (omega arith) c in
        rw (fine, settle) (d, λ p. same' ∙ same ∙ done tt)
    | inr (x, bad) ↦ rw (bad, settle) ((keep t).0, λ p. absurd p.0)
  ]

  stream_rest-Keeps : (chunks : List StreamChunk) → KeepsIf L IsUnbroken 10 (stream_rest e chunks)
  unfolding stream_rest
  stream_rest-Keeps chunks =
      let rest = after_stream e (full_content chunks) (all_calls chunks) in
      KeepsIf-pure L IsUnbroken IsUnbroken 10 (settle rest)
        (λ (more : List OutChunk × Option (List Message)). (map passed chunks ++ more.0, more.1))
        (λ more p. All-append-right IsPlain (map passed chunks) more.0 p) (λ x p. p)
        (settle-Keeps 10 rest (after_stream-Keeps (full_content chunks) (all_calls chunks)))

  -- With a hook that keeps the ledger: whatever `SendStream` returns or puts on its channel, the
  -- stored conversation has grown by what is read back of the messages that it added to the session
  -- after the pending summary was applied, in the same order, and by one message more at most; it
  -- returned an error, or put one of its own on the channel, or there is no such message; and the
  -- provider was called eleven times at most.
  pub send_stream-InStep :
      (text : Bytes) (t : Turn S)
      → (i : InStep L 11
          (record t { session = apply_pending_summary t.session })
          (send_stream e text t).1)
        × (IsBroken (send_stream e text t).0 ⊎ (i.beyond ≡ []))
  unfolding send_stream persist_and_append_user
  send_stream-InStep text t =
      let start : Turn S = record t { session = apply_pending_summary t.session } in
      let (i, fine) =
        KeepsIf-bind L IsUnbroken 0 11
          (persist_and_append persist_user e (plain_message user_role text))
          (λ _. call_stream e >>= stream_rest e) (λ x p. p)
          (persist_and_append-Keeps L e on persist_user (plain_message user_role text))
          (λ _.
            KeepsIf-bind L IsUnbroken 1 10 (call_stream e) (stream_rest e) (λ x p. p)
              call_stream-Keeps stream_rest-Keeps)
          start in
      (i, channel_cases (send_stream e text t).0 fine)

>>=-ok :
    {S : Services} {A B : Type 0} (m : M S A) (f : A → M S B) (t : Turn S) {a : A} {u : Turn S}
    → m t ≡ (ok a, u)
    → (m >>= f) t ≡ f a u
>>=-ok m f t h = ap (λ r. elim r.0 [ ok a ↦ f a r.1 | err x ↦ (err x, r.1) ]) h

summarized : {S : Services} → List OutChunk → M S (List OutChunk × Option (List Message))
unfolding start_summarization
summarized cs = do snapshot ← start_summarization; pure (cs, snapshot)

summarization_started :
    {S : Services} (cs : List OutChunk) (u : Turn S)
    → let r = summarized cs u in
      (r.0 ≡ ok (cs, if u.session.summarizing then none else some u.session.history))
      × (r.1.session.history ≡ u.session.history)
unfolding start_summarization maybe_start_summarization summarized
summarization_started cs u = ground arith

settle_ok :
    {S : Services} (m : M S (List OutChunk)) (t : Turn S) {cs : List OutChunk} {u : Turn S}
    → m t ≡ (ok cs, u)
    → settle m t ≡ summarized cs u
unfolding settle summarized
settle_ok m t h = ap (λ r. settle (λ _. r) t) h

module _ {S : Services} (e : Engine) (off : e.persistent ≡ false) where
  persist_off :
      (wrap : Bytes → EngineError) (msg : Message) (t : Turn S)
      → persist_and_append wrap e msg t
        ≡ (ok tt, record t { session = append_message t.session msg })
  unfolding persist_and_append
  persist_off wrap msg t = ground arith

  after_stream_text :
      (content : Bytes) (calls : List ToolCall) (t : Turn S)
      → calls ≡ []
      → after_stream e content calls t ≡ (
        ok [],
        record t { session = append_message t.session (plain_message assistant_role content) },
      )
  unfolding after_stream persist_and_append_assistant
  after_stream_text content [] t none_asked =
      >>=-ok (persist_and_append persist_assistant e (plain_message assistant_role content))
        (λ _. pure []) t (persist_off persist_assistant (plain_message assistant_role content) t)
  after_stream_text content (c ∷ cs) t none_asked = absurd (cc)

  called :
      (t : Turn S) {chunks : List StreamChunk}
      → (S.chat_stream (build_messages e t.session) t.world).0 ≡ ok chunks
      → call_stream e t
        ≡ (ok chunks, record t { world = (S.chat_stream (build_messages e t.session) t.world).1 })
  unfolding call_stream
  called t h = rw (h, call_stream) refl

  stream_rest_text :
      (chunks : List StreamChunk) (t : Turn S)
      → all_calls chunks ≡ []
      → let kept = append_message t.session (plain_message assistant_role (full_content chunks)) in
        ((stream_rest e chunks t).0
          ≡ ok (map passed chunks ++ [], if t.session.summarizing then none else some kept.history))
        × ((stream_rest e chunks t).1.session.history ≡ kept.history)
  unfolding stream_rest append_message
  stream_rest_text chunks t none_asked =
      let m = after_stream e (full_content chunks) (all_calls chunks) in
      let kept = append_message t.session (plain_message assistant_role (full_content chunks)) in
      let settled =
        settle_ok m t (after_stream_text (full_content chunks) (all_calls chunks) t none_asked) in
      let u : Turn S = record t { session = kept } in
      let (value, history) = summarization_started {S = S} [] u in
      let r = summarized {S = S} [] u in
      let whole = >>=-ok (settle m) (behind chunks) t (settled ∙ ap (λ o. (o, r.1)) value) in
      (ap (λ q. q.0) whole, ap (λ q. q.1.session.history) whole ∙ history)

  -- Without persistence, a stream of chunks that ask for no tool leaves the user's message and one
  -- assistant message with the text of all chunks in the session. No chunk's error is looked at: a
  -- stream that broke off is kept like a complete one, and starts a summarization like it.
  pub send_stream_text :
      (text : Bytes) (t : Turn S) {chunks : List StreamChunk}
      → let before = apply_pending_summary t.session in
        let asked = append_message before (plain_message user_role text) in
        let answer = S.chat_stream (build_messages e asked) t.world in
        answer.0 ≡ ok chunks
        → all_calls chunks ≡ []
        → let kept = append_message asked (plain_message assistant_role (full_content chunks)) in
          (send_stream e text t).0
            ≡ ok (map passed chunks ++ [], if before.summarizing then none else some kept.history)
          × ((send_stream e text t).1.session.history ≡ kept.history)
  unfolding send_stream persist_and_append_user call_stream
  send_stream_text text t {chunks} here none_asked =
      let before = apply_pending_summary t.session in
      let user = plain_message user_role text in
      let reply = plain_message assistant_role (full_content chunks) in
      let asked = append_message before user in
      let w = (S.chat_stream (build_messages e asked) t.world).1 in
      let start : Turn S = record t { session = before } in
      let sent : Turn S = record t { session = asked } in
      let streamed : Turn S = record { session = asked; world = w } in
      let kept : Turn S = record { session = append_message asked reply; world = w } in
      let whole =
        >>=-ok (persist_and_append persist_user e user) (λ _. call_stream e >>= stream_rest e) start
          (persist_off persist_user user start)
        ∙ >>=-ok (call_stream e) (stream_rest e) sent {u = streamed} (called sent here) in
      let (value, history) = stream_rest_text chunks streamed none_asked in
      (ap (λ r. r.0) whole ∙ value, ap (λ r. r.1.session.history) whole ∙ history)
