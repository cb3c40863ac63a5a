-- ===== src/Memory/Summarizer.antt =====
-- internal/memory/summarizer.go: the older part of a long history is replaced by a summary. The
-- provider and the vector store are parameters that act on a world, and `string_field` is what
-- `encoding/json` finds in a tool call's arguments: the string under a key, if there is one. The
-- check for missing terms, which only writes a log line, is left out.
pub mod Laws
use gogoclaw.Base.{
  ℕ, zero, suc, ◌+◌, ◌-◌, ◌/◌, ◌==◌, ltb, leb, ◌&&◌, Bool, true, false, not, if◌then◌else◌, Option,
  none, some, List, [], ◌∷◌, ◌++◌, length, take, drop,
}
use gogoclaw.Base.Bytes.{Bytes, bytes, bytes_eq, trim_space}
use gogoclaw.Base.Outcome.{Outcome, ok, err}
use gogoclaw.Provider.{
  Message, ToolCall, ChatResponse, plain_message, system_role, user_role, assistant_role, tool_role,
}
use gogoclaw.Memory.Facts.{extract_facts, extract_and_save}

-- `counter` is the provider's `CountTokens`, if there is a provider.
pub record Summarizer : Type 0 where
  pub counter : Option (Bytes → Option ℕ)
  pub threshold_tokens : ℕ
  pub has_store : Bool

-- `NewSummarizer`; a threshold that is not positive is 0 here.
unfoldable pub new_summarizer : Option (Bytes → Option ℕ) → ℕ → Bool → Summarizer
new_summarizer counter threshold has_store = record {
  counter = counter;
  threshold_tokens = if threshold == 0 then 3072 else threshold;
  has_store = has_store;
}

pub record SummarizeResult : Type 0 where
  pub summary : Bytes
  pub remaining_history : List Message
  pub facts_extracted : List Bytes

abbrev pub min_user_turns : ℕ
min_user_turns = 6

abbrev pub has_role : Bytes → Message → Bool
has_role role m = bytes_eq m.role role

unfoldable pub user_turns : List Message → ℕ
user_turns [] = 0
user_turns (m ∷ ms) = if has_role user_role m then suc (user_turns ms) else user_turns ms

count_or_fallback : Option (Bytes → Option ℕ) → Bytes → ℕ
count_or_fallback none content = length content / 4
count_or_fallback (some count) content = elim (count content) [
  | some n ↦ n
  | none ↦ length content / 4
]

-- The messages of tools are not counted.
unfoldable pub estimate_history_tokens : Summarizer → List Message → ℕ
unfolding count_or_fallback
estimate_history_tokens s [] = 0
estimate_history_tokens s (m ∷ ms) =
    let rest = estimate_history_tokens s ms in
    if has_role tool_role m then rest else count_or_fallback s.counter m.content + rest

-- The index of the next user message, counted from `j`.
next_user : ℕ → List Message → Option ℕ
next_user j [] = none
next_user j (m ∷ ms) = if has_role user_role m then some j else next_user (suc j) ms

abbrev or_index : Option ℕ → ℕ → ℕ
or_index (some j) k = j
or_index none k = k

-- The loop over the messages from index `i`.
split_from : ℕ → ℕ → ℕ → List Message → Option ℕ
unfolding next_user
split_from target i running [] = none
split_from target i running (m ∷ ms) =
    let total = running + length m.content / 4 in
    let later = split_from target (suc i) total ms in
    if leb target total then some (or_index (next_user (suc i) ms) (suc i)) else later

unfoldable pub find_split_point : List Message → ℕ → ℕ
unfolding split_from
find_split_point history total_tokens =
    or_index (split_from (total_tokens / 2) 0 0 history) (length history / 2)

abbrev line : Bytes → Bytes → Bytes
line role text = role ++ bytes ": " ++ text ++ bytes "\n"

-- What an assistant's message with tool calls becomes, by its condensed calls.
calls_line : Bytes → Bytes → Bytes
calls_line content [] = line assistant_role content
calls_line [] (c ∷ cs) = line assistant_role (bytes "[Tools: " ++ (c ∷ cs) ++ bytes "]")
calls_line (b ∷ bs) (c ∷ cs) =
    line assistant_role ((b ∷ bs) ++ bytes " [Tools: " ++ (c ∷ cs) ++ bytes "]")

unfoldable pub summary_prompt : Bytes → Bytes
summary_prompt text =
    bytes
      "Summarize the following conversation segment concisely. Preserve key facts, decisions, user preferences, and important context. Be brief but complete.\n\nConversation segment:\n"
    ++ text
    ++ bytes "\n\nRespond with ONLY the summary, no preamble."

unfoldable pub summary_message : Bytes → Message
summary_message summary =
    plain_message system_role (bytes "[Previous conversation summary]: " ++ summary)

abbrev priority_keys : List (Bytes × Bytes)
priority_keys =
    (bytes "file_read", bytes "path")
    ∷ (bytes "file_write", bytes "path")
    ∷ (bytes "shell_exec", bytes "command")
    ∷ (bytes "memory_save", bytes "content")
    ∷ (bytes "memory_search", bytes "query")
    ∷ (bytes "web_fetch", bytes "url")
    ∷ (bytes "think", bytes "thought")
    ∷ []

abbrev fallback_keys : List Bytes
fallback_keys =
    bytes "path"
    ∷ bytes "file"
    ∷ bytes "command"
    ∷ bytes "query"
    ∷ bytes "url"
    ∷ bytes "name"
    ∷ bytes "content"
    ∷ bytes "text"
    ∷ []

keys_of : Bytes → List (Bytes × Bytes) → List Bytes
keys_of name [] = []
keys_of name ((tool, key) ∷ rest) = if bytes_eq tool name then key ∷ [] else keys_of name rest

module _ (string_field : Bytes → Bytes → Option Bytes) where
  -- The first of the keys with a string that is not empty; the empty string if there is none.
  first_field : Bytes → List Bytes → Bytes
  first_field args [] = []
  first_field args (k ∷ ks) = elim (string_field args k) [
    | none ↦ first_field args ks
    | some s ↦ if bytes_eq s [] then first_field args ks else s
  ]

  extract_key_arg : Bytes → Bytes → Bytes
  unfolding first_field keys_of
  extract_key_arg name [] = []
  extract_key_arg name (a ∷ rest) =
      first_field (a ∷ rest) (keys_of name priority_keys ++ fallback_keys)

  unfoldable pub condense_tool_call : ToolCall → Bytes
  unfolding extract_key_arg
  condense_tool_call tc =
      let key_arg = extract_key_arg tc.name tc.arguments in
      let short = if ltb 80 (length key_arg) then take 77 key_arg ++ bytes "..." else key_arg in
      if bytes_eq tc.name []
      then []
      else if bytes_eq key_arg []
      then tc.name ++ bytes "()"
      else tc.name ++ bytes "(" ++ short ++ bytes ")"

  -- `strings.Join(parts, "; ")` of the parts that are not empty.
  join_calls : List ToolCall → Bytes
  unfolding condense_tool_call
  join_calls [] = []
  join_calls (tc ∷ tcs) =
      let desc = condense_tool_call tc in
      let rest = join_calls tcs in
      if bytes_eq desc []
      then rest
      else if bytes_eq rest []
      then desc
      else desc ++ bytes "; " ++ rest

  spoken_line : Bytes → Bytes → List ToolCall → Bytes
  unfolding calls_line join_calls
  spoken_line role content [] = line role content
  spoken_line role content (tc ∷ tcs) =
      if bytes_eq role assistant_role
      then calls_line content (join_calls (tc ∷ tcs))
      else line role content

  -- The text that is summarized.
  unfoldable pub segment_text : List Message → Bytes
  unfolding spoken_line
  segment_text [] = []
  segment_text (m ∷ ms) =
      let rest = segment_text ms in
      if has_role tool_role m then rest else spoken_line m.role m.content m.tool_calls ++ rest

  module _ {World : Type 0} (chat : List Message → World → Outcome Bytes ChatResponse × World)
      (store : Bytes → World → Bool × World) where
    abbrev keep_facts : Summarizer → List Message → World → World
    keep_facts s older w = if s.has_store then extract_and_save store older w else w

    -- The summary of the messages before the split.
    unfoldable pub summarize_older :
        Summarizer
        → List Message
        → List Message
        → World
        → Outcome Bytes (Option SummarizeResult) × World
    unfolding segment_text summary_prompt summary_message
    summarize_older s older newer w =
        let (answer, w') =
          chat (plain_message user_role (summary_prompt (segment_text older)) ∷ []) w in
        elim answer [
          | err text ↦ (err text, w')
          | ok resp ↦
              let summary = trim_space resp.content in
              (
                ok (
                    some (record {
                      summary = summary;
                      remaining_history = summary_message summary ∷ newer;
                      facts_extracted = extract_facts older;
                    })),
                keep_facts s older w',
              )
        ]

    -- `MaybeSummarize`; the conversation's id only names the stored facts.
    unfoldable pub maybe_summarize :
        Summarizer → List Message → World → Outcome Bytes (Option SummarizeResult) × World
    unfolding user_turns estimate_history_tokens find_split_point summarize_older
    maybe_summarize s history w =
        let total = estimate_history_tokens s history in
        let split = find_split_point history total in
        if ltb (user_turns history) min_user_turns
        then (ok none, w)
        else if leb total s.threshold_tokens
        then (ok none, w)
        else if split == 0
        then (ok none, w)
        else summarize_older s (take split history) (drop split history) w
