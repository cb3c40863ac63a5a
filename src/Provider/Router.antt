-- ===== src/Provider/Router.antt =====
-- internal/provider/router.go: providers tried in order, each with retries. `World` is what the
-- providers act on, with the clock; `wait` is the pause before a retry, in milliseconds, which
-- ends with the context's error when the context is done first.
pub mod Laws
use gogoclaw.Base.{
  ℕ, zero, suc, ◌+◌, ◌-◌, ◌*◌, ◌/◌, ◌^◌, ltb, Bool, true, false, if◌then◌else◌, Option, none, some,
  List, [], ◌∷◌, length, get_elem?,
}
use gogoclaw.Base.Bytes.{Bytes, bytes}
use gogoclaw.Base.Outcome.{Outcome, ok, err}
use gogoclaw.Provider.{Message, ChatResponse, StreamChunk}

module _ (World : Type 0) where
  -- The interface `Provider`. The first argument of a call is its timeout in milliseconds.
  pub record Provider : Type 0 where
    pub name : Bytes
    pub chat : ℕ → List Message → World → Outcome Bytes ChatResponse × World
    pub chat_stream : ℕ → List Message → World → Outcome Bytes (List StreamChunk) × World
    pub count_tokens : Bytes → Option ℕ
    pub healthy : World → Bool × World

  -- `providerEntry`
  pub record Entry : Type 0 where
    pub provider : Provider
    pub timeout : ℕ
    pub retries : ℕ

-- `xs[i]` if there is one and it is positive.
abbrev positive_or : ℕ → Option ℕ → ℕ
positive_or base none = base
positive_or base (some zero) = base
positive_or base (some (suc n)) = suc n

module _ {World : Type 0} where
  entries_from : ℕ → List (Provider World) → List ℕ → List ℕ → List (Entry World)
  entries_from i [] timeouts retries = []
  entries_from i (p ∷ ps) timeouts retries =
      record {
        provider = p;
        timeout = positive_or 60000 (get_elem? timeouts i);
        retries = positive_or 1 (get_elem? retries i);
      }
      ∷ entries_from (suc i) ps timeouts retries

  -- `NewRouter`; a limit that is not positive is 0 here.
  unfoldable pub new_router : List (Provider World) → List ℕ → List ℕ → List (Entry World)
  unfolding entries_from
  new_router = entries_from 0

  unfoldable pub router_name : List (Entry World) → Bytes
  router_name [] = bytes "router"
  router_name (e ∷ es) = e.provider.name

  unfoldable pub count_tokens : List (Entry World) → Bytes → Option ℕ
  count_tokens [] content = some (length content / 4)
  count_tokens (e ∷ es) content = e.provider.count_tokens content

  unfoldable pub healthy : List (Entry World) → World → Bool × World
  healthy [] w = (false, w)
  healthy (e ∷ es) w =
      let (up, w') = e.provider.healthy w in if up then (true, w') else healthy es w'

  module _ (wait : ℕ → World → Option Bytes × World) where
    -- The pause before attempt `n`.
    unfoldable pub back_off : ℕ → World → Option Bytes × World
    back_off zero w = (none, w)
    back_off (suc n) w = wait (2 ^ n * 500) w

    -- The attempts left, the number of the next one, and the last error.
    unfoldable pub retry_loop :
        Entry World
        → List Message
        → ℕ
        → ℕ
        → Option Bytes
        → World
        → Outcome (Option Bytes) ChatResponse × World
    unfolding back_off
    retry_loop e msgs zero attempt last w = (err last, w)
    retry_loop e msgs (suc left) attempt last w =
        let (stopped, w') = back_off attempt w in
        elim stopped [
          | some text ↦ (err (some text), w')
          | none ↦
              let (answer, w'') = e.provider.chat e.timeout msgs w' in
              elim answer [
                | ok resp ↦ (ok resp, w'')
                | err text ↦ retry_loop e msgs left (suc attempt) (some text) w''
              ]
        ]

    unfoldable pub try_with_retries :
        Entry World → List Message → World → Outcome (Option Bytes) ChatResponse × World
    unfolding retry_loop
    try_with_retries e msgs = retry_loop e msgs (suc e.retries) 0 none

    fail_over :
        List (Entry World)
        → List Message
        → Option Bytes
        → World
        → Outcome (Option Bytes) ChatResponse × World
    unfolding try_with_retries
    fail_over [] msgs last w = (err last, w)
    fail_over (e ∷ es) msgs last w =
        let (answer, w') = try_with_retries e msgs w in
        elim answer [ ok resp ↦ (ok resp, w') | err text ↦ fail_over es msgs text w' ]

    -- `Chat`; the error is the last provider's, and `none` where there is no provider.
    unfoldable pub chat :
        List (Entry World) → List Message → World → Outcome (Option Bytes) ChatResponse × World
    unfolding fail_over
    chat es msgs = fail_over es msgs none

  stream_over :
      List (Entry World)
      → List Message
      → Option Bytes
      → World
      → Outcome (Option Bytes) (List StreamChunk) × World
  stream_over [] msgs last w = (err last, w)
  stream_over (e ∷ es) msgs last w =
      let (answer, w') = e.provider.chat_stream e.timeout msgs w in
      elim answer [ ok chunks ↦ (ok chunks, w') | err text ↦ stream_over es msgs (some text) w' ]

  -- `ChatStream`: each provider is asked once, and the chunks are passed on as they are.
  unfoldable pub chat_stream :
      List (Entry World) → List Message → World → Outcome (Option Bytes) (List StreamChunk) × World
  unfolding stream_over
  chat_stream es msgs = stream_over es msgs none
