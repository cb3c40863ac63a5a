-- ===== src/Memory/Tests.antt =====
-- A summarizer over a short script.
use mathlib.Core.List.{Memᴰ}
use gogoclaw.Base.{
  ℕ, suc, ◌/◌, ◌≡◌, ◌≢◌, ◌⊎◌, ◌↔◌, refl, Bool, true, Option, none, some, List, [], ◌∷◌, ◌++◌,
  length,
}
use gogoclaw.Base.Bytes.{Bytes, bytes}
use gogoclaw.Base.Outcome.{Outcome, ok}
use gogoclaw.Provider.{Message, ChatResponse, plain_message, user_role, assistant_role}
use gogoclaw.Memory.Facts.{extract_facts}
use gogoclaw.Memory.Facts.Laws.{IsDistinct, extract_facts-IsFact}
use gogoclaw.Memory.Facts.Found.{IsFact}
use gogoclaw.Memory.Summarizer.{
  Summarizer, SummarizeResult, new_summarizer, maybe_summarize, summary_message,
}
use gogoclaw.Memory.Summarizer.Laws.{BeginsWithUser, NoUser, maybe_summarize_result}

abbrev no_field : Bytes → Bytes → Option Bytes
no_field args key = none

abbrev scripted : List Message → ℕ → Outcome Bytes ChatResponse × ℕ
scripted msgs w = (ok record { content = bytes " so far "; tool_calls = [] }, suc w)

abbrev storing : Bytes → ℕ → Bool × ℕ
storing fact w = (true, suc w)

abbrev ask : Message
ask = plain_message user_role (bytes "what is my name?")

abbrev reply : Message
reply = plain_message assistant_role (bytes "- You prefer to be called Ada.")

abbrev talk : List Message
talk = ask ∷ reply ∷ ask ∷ reply ∷ ask ∷ reply ∷ ask ∷ reply ∷ ask ∷ reply ∷ ask ∷ reply ∷ []

abbrev small : Summarizer
small = new_summarizer none 20 true

extract_facts_sample : extract_facts talk ≡ bytes "You prefer to be called Ada." ∷ []
unfolding extract_facts
extract_facts_sample = refl

abbrev ada : Bytes
ada = bytes "You prefer to be called Ada."

extract_facts-IsFact_example :
    (Memᴰ ada (extract_facts talk) ↔ IsFact talk ada) × IsDistinct (extract_facts talk)
extract_facts-IsFact_example = extract_facts-IsFact talk ada

abbrev outcome : SummarizeResult
outcome = record {
  summary = bytes "so far";
  remaining_history =
      summary_message (bytes "so far") ∷ ask ∷ reply ∷ ask ∷ reply ∷ ask ∷ reply ∷ [];
  facts_extracted = bytes "You prefer to be called Ada." ∷ [];
}

summarized : (maybe_summarize no_field scripted storing small talk 0).0 ≡ ok (some outcome)
unfolding maybe_summarize new_summarizer extract_facts
summarized = refl

maybe_summarize_result_example :
    (older : List Message) × (newer : List Message) × (talk ≡ older ++ newer)
    × (older ≢ [])
    × (outcome.remaining_history ≡ summary_message outcome.summary ∷ newer)
    × (outcome.facts_extracted ≡ extract_facts older)
    × ((BeginsWithUser newer ⊎ NoUser newer) ⊎ (length older ≡ length talk / 2))
maybe_summarize_result_example =
    maybe_summarize_result no_field scripted storing small talk 0 summarized
