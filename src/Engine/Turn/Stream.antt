-- ===== src/Engine/Turn/Stream.antt =====
-- internal/engine/engine.go: `SendStream`. The chunks of the provider's stream are a list, and so
-- are those that the turn puts on its own channel before it closes it.
pub mod Laws
use gogoclaw.Base.{Option, none, some, List, [], ◌∷◌, ◌++◌, map}
use gogoclaw.Base.Bytes.{Bytes, bytes}
use gogoclaw.Base.Outcome.{Outcome, ok, err}
use gogoclaw.Provider.{StreamChunk, Message, ToolCall, plain_message, user_role, assistant_role}
use gogoclaw.Engine.Turn.{
  Services, EngineError, stream_failed, Engine, Turn, M, ◌>>=◌, ◌>>◌, pure, calls_message,
  build_messages, persist_and_append_user, persist_and_append_assistant, dispatch_tool_calls,
  run_tool_loop, apply_pending, start_summarization,
}

-- A chunk of the provider, the text that a tool loop ended with, or the error that ends the turn.
pub data OutChunk : Type 0 where
  passed : StreamChunk → OutChunk
  final_text : Bytes → OutChunk
  failed : EngineError → OutChunk

unfoldable pub full_content : List StreamChunk → Bytes
full_content [] = []
full_content (c ∷ cs) = c.content ++ full_content cs

unfoldable pub all_calls : List StreamChunk → List ToolCall
all_calls [] = []
all_calls (c ∷ cs) = c.tool_calls ++ all_calls cs

module _ {S : Services} where
  call_stream : Engine → M S (List StreamChunk)
  call_stream e t =
      let (answer, world) = S.chat_stream (build_messages e t.session) t.world in
      elim answer [
        | ok chunks ↦ (ok chunks, record t { world = world })
        | err text ↦ (err (stream_failed text), record t { world = world })
      ]

  -- What the goroutine does behind the provider's last chunk.
  after_stream : Engine → Bytes → List ToolCall → M S (List OutChunk)
  unfolding persist_and_append_assistant dispatch_tool_calls run_tool_loop
  after_stream e content [] = do
    persist_and_append_assistant e (plain_message assistant_role content)
    pure []
  after_stream e content (c ∷ cs) = do
    persist_and_append_assistant e (calls_message content (c ∷ cs))
    dispatch_tool_calls e (c ∷ cs)
    text ← run_tool_loop e
    pure (final_text (bytes "\n" ++ text) ∷ [])

  -- An error is a last chunk, and only a turn without one starts a summarization.
  settle : M S (List OutChunk) → M S (List OutChunk × Option (List Message))
  unfolding start_summarization
  settle m t =
      let (o, u) = m t in
      elim o [
        | ok chunks ↦ (do snapshot ← start_summarization; pure (chunks, snapshot)) u
        | err x ↦ (ok (failed x ∷ [], none), u)
      ]

  abbrev behind :
      List StreamChunk
      → List OutChunk × Option (List Message)
      → M S (List OutChunk × Option (List Message))
  behind chunks (more, snapshot) = pure (map passed chunks ++ more, snapshot)

  stream_rest : Engine → List StreamChunk → M S (List OutChunk × Option (List Message))
  unfolding after_stream settle full_content all_calls
  stream_rest e chunks = do
    more ← settle (after_stream e (full_content chunks) (all_calls chunks))
    behind chunks more

  -- `SendStream`: all chunks of the channel, with the snapshot that a summarization was started
  -- on, or the error that is returned in place of a channel.
  unfoldable pub send_stream : Engine → Bytes → M S (List OutChunk × Option (List Message))
  unfolding apply_pending persist_and_append_user call_stream stream_rest
  send_stream e text = do
    apply_pending
    persist_and_append_user e (plain_message user_role text)
    chunks ← call_stream e
    stream_rest e chunks
