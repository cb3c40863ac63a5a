-- ===== src/Provider/Tests.antt =====
-- A router over two providers, of which the first never answers.
use gogoclaw.Base.{
  ℕ, suc, ◌+◌, ◌≤◌, ◌≡◌, refl, inr, inl, arith, true, Option, none, List, [], ◌∷◌, All,
}
use gogoclaw.Base.Bytes.{Bytes, bytes}
use gogoclaw.Base.Outcome.{Outcome, ok, err}
use gogoclaw.Provider.{ChatResponse}
use gogoclaw.Provider.Router.{Provider, Entry, new_router, chat}
use gogoclaw.Provider.Router.Laws.{chat_up, Meter, IsMetered, all_calls, all_pauses, chat-Within}

record Clock : Type 0 where
  calls : ℕ
  time : ℕ

abbrev hello : ChatResponse
hello = record { content = bytes "hello"; tool_calls = [] }

abbrev answering : Outcome Bytes ChatResponse → Provider Clock
answering o = record {
  name = bytes "test";
  chat = λ timeout msgs w. (o, record w { calls = suc w.calls });
  chat_stream = λ timeout msgs w. (err (bytes "no stream"), w);
  count_tokens = λ content. none;
  healthy = λ w. (true, w);
}

abbrev pause : ℕ → Clock → Option Bytes × Clock
pause d w = (none, record w { time = w.time + d })

abbrev pair : List (Entry Clock)
pair = new_router (answering (err (bytes "down")) ∷ answering (ok hello) ∷ []) [] (2 ∷ [])

abbrev noon : Clock
noon = record { calls = 0; time = 0 }

chat_sample : chat pause pair [] noon ≡ (ok hello, record { calls = 4; time = 1500 })
unfolding chat new_router
chat_sample = refl

chat_up_example : (resp : ChatResponse) × ((chat pause pair [] noon).0 ≡ ok resp)
unfolding new_router
chat_up_example = chat_up pause [] pair noon (inr (inl (λ timeout msgs w. (hello, refl))))

abbrev meter : Meter pause
meter = record {
  chats = λ w. w.calls;
  waited = λ w. w.time;
  chats-wait = λ d w. refl;
  waited-wait = λ d w. omega arith;
}

metered : All (IsMetered meter []) pair
unfolding new_router
metered = ((λ w. (refl, refl)), ((λ w. (refl, refl)), tt))

chat-Within_example :
    ((chat pause pair [] noon).1.calls ≤ 0 + all_calls meter [] pair)
    × ((chat pause pair [] noon).1.time ≤ 0 + all_pauses meter [] pair)
chat-Within_example = chat-Within meter [] pair noon metered
