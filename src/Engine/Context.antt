-- ===== src/Engine/Context.antt =====
-- internal/engine/context.go: the messages of a request, cut to the token budget. Token counts
-- are not negative, and a budget that the source lets fall below 0 is 0 here: the source only asks
-- whether it is above a number.
pub mod Laws
use mathlib.Core.List.{reverse}
use gogoclaw.Base.{
  ℕ, ◌+◌, ◌-◌, ◌/◌, ◌==◌, ltb, if◌then◌else◌, Option, none, some, List, [], ◌∷◌, ◌++◌, length,
}
use gogoclaw.Base.Bytes.{Bytes, bytes, bytes_eq}
use gogoclaw.Provider.{Message, system_role, user_role, plain_message}

-- A `memory.MemoryResult`, the relevance being the text that `%.0f%%` prints.
pub record Hit : Type 0 where
  pub content : Bytes
  pub relevance : Bytes

-- `count_tokens` is the provider's `CountTokens` (`none` for an error) and `search` the vector
-- store's `Search`.
pub record Assembler : Type 0 where
  pub max_context_tokens : ℕ
  pub counter : Option (Bytes → Option ℕ)
  pub search : Bytes → ℕ → Option (List Hit)
  pub memory_top_k : ℕ

-- `NewContextAssembler`: 0 stands for every limit that is not positive.
unfoldable pub new_context_assembler : ℕ → Option (Bytes → Option ℕ) → Assembler
new_context_assembler limit counter = record {
  max_context_tokens = if limit == 0 then 8192 else limit;
  counter = counter;
  search = λ _ _. some [];
  memory_top_k = 0;
}

set_memory_store : Assembler → (Bytes → ℕ → Option (List Hit)) → ℕ → Assembler
set_memory_store ca search top_k = record ca {
  search = search;
  memory_top_k = if top_k == 0 then 5 else top_k;
}

fallback_tokens : Bytes → ℕ
fallback_tokens content = length content / 4

unfoldable pub estimate_tokens : Assembler → Bytes → ℕ
unfolding fallback_tokens
estimate_tokens ca content = elim ca.counter [
  | none ↦ fallback_tokens content
  | some count ↦ elim (count content) [ some n ↦ n | none ↦ fallback_tokens content ]
]

-- The backward loop of `buildMemoryQuery`, over the history from its newest message.
last_user_parts : ℕ → List Message → List Bytes → List Bytes
last_user_parts count [] parts = parts
last_user_parts count (m ∷ older) parts =
    if ltb count 2
    then if bytes_eq m.role user_role
      then last_user_parts (count + 1) older (m.content ∷ parts)
      else last_user_parts count older parts
    else parts

-- `strings.Join(parts, sep)`
unfoldable pub join : Bytes → List Bytes → Bytes
join sep [] = []
join sep (p ∷ []) = p
join sep (p ∷ q ∷ ps) = p ++ (sep ++ join sep (q ∷ ps))

unfoldable pub build_memory_query : List Message → Bytes
unfolding last_user_parts join bytes_eq
build_memory_query history = join (bytes " ") (last_user_parts 0 (reverse history) [])

memory_lines : List Hit → Bytes
memory_lines [] = []
memory_lines (r ∷ rs) =
    bytes "- "
    ++ (r.content ++ (bytes " (relevance: " ++ (r.relevance ++ (bytes ")\n" ++ memory_lines rs))))

unfoldable pub enrich_with_memories : Assembler → Bytes → List Message → Bytes
unfolding build_memory_query memory_lines
enrich_with_memories ca prompt [] = prompt
enrich_with_memories ca prompt (m ∷ ms) = elim (build_memory_query (m ∷ ms)) [
  | [] ↦ prompt
  | c ∷ cs ↦ elim (ca.search (c ∷ cs) ca.memory_top_k) [
    | none ↦ prompt
    | some hits ↦ elim hits [
      | [] ↦ prompt
      | r ∷ rs ↦ prompt ++ (bytes "\n\n## Relevant memories\n\n" ++ memory_lines (r ∷ rs))
    ]
  ]
]

-- The loop from the newest message to the oldest until the budget is exhausted.
include_recent : Assembler → ℕ → List Message → List Message → List Message
include_recent ca budget [] included = included
include_recent ca budget (m ∷ older) included =
    let tokens = estimate_tokens ca m.content in
    let rest = include_recent ca (budget - tokens) older (m ∷ included) in
    if ltb 0 budget then if ltb budget tokens then included else rest else included

-- What is left for the history after the prompt, the tools and the response.
unfoldable pub history_budget : Assembler → Bytes → ℕ → ℕ
history_budget ca prompt overhead =
    let budget = ca.max_context_tokens - estimate_tokens ca prompt - overhead in
    if ltb 1024 budget then budget - 1024 else budget

unfoldable pub assemble : Assembler → Bytes → List Message → ℕ → List Message
unfolding include_recent
assemble ca system_prompt history overhead =
    let prompt = enrich_with_memories ca system_prompt history in
    let included = include_recent ca (history_budget ca prompt overhead) (reverse history) [] in
    elim prompt [ [] ↦ included | c ∷ cs ↦ plain_message system_role (c ∷ cs) ∷ included ]

-- `TokenBudgetInfo`: total, used, available.
unfoldable pub token_budget_info : Assembler → Bytes → ℕ → ℕ → ℕ × ℕ × ℕ
token_budget_info ca prompt history_tokens overhead =
    let used = estimate_tokens ca prompt + history_tokens + overhead in
    (ca.max_context_tokens, used, ca.max_context_tokens - used)
