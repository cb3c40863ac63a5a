-- ===== src/Memory/Summarizer/Laws.antt =====
-- What a summary takes out of a history and what it leaves.
use gogoclaw.Base.{
  ℕ, suc, ◌+◌, ◌/◌, ◌≤◌, ◌<◌, ◌≡◌, ◌≢◌, ◌⊎◌, refl, sym, ap, ◌∙◌, inl, inr, arith, Bool, true, false,
  not, leb, Option, none, some, List, [], ◌∷◌, ◌++◌, length, take, drop, take-append-drop,
  length-take, Bool-cases, keep_if,
}
use gogoclaw.Base.Bytes.{Bytes}
use gogoclaw.Base.Outcome.{Outcome, ok}
use gogoclaw.Provider.{Message, ChatResponse, user_role, tool_role}
use gogoclaw.Memory.Facts.{extract_facts}
use gogoclaw.Memory.Summarizer.{
  Summarizer, SummarizeResult, min_user_turns, has_role, user_turns, estimate_history_tokens,
  next_user, split_from, find_split_point, segment_text, summary_message, summarize_older,
  maybe_summarize,
}

-- The newer part begins with the user's message, or has none.
abbrev pub NoUser : List Message → Type 0
NoUser [] = Unit {0}
NoUser (m ∷ ms) = (has_role user_role m ≡ false) × NoUser ms

abbrev pub BeginsWithUser : List Message → Type 0
BeginsWithUser [] = ⊥
BeginsWithUser (m ∷ ms) = has_role user_role m ≡ true

next_user-found :
    (j : ℕ) (ms : List Message)
    → ((k : ℕ) × (next_user j ms ≡ some (j + k)) × (k < length ms) × BeginsWithUser (drop k ms))
      ⊎ ((next_user j ms ≡ none) × NoUser ms)
unfolding next_user
next_user-found j [] = inr (refl, tt)
next_user-found j (m ∷ ms) = elim (Bool-cases (has_role user_role m)) [
  | inl y ↦ inl (0, at_index j 0 (ground arith) (omega arith), omega arith, y)
  | inr n ↦ elim (next_user-found (suc j) ms) [
    | inl (k, e, lt, u) ↦
        inl (suc k, at_index (suc j + k) (suc k) (ground arith) (omega arith), omega (arith, lt), u)
    | inr (e, no_user) ↦ inr (ground arith, (n, no_user))
  ]
]
  where
    at_index :
        (i k : ℕ) → next_user j (m ∷ ms) ≡ some i → i ≡ j + k → next_user j (m ∷ ms) ≡ some (j + k)
    at_index i k e same = e ∙ ap some same

-- `k` messages on, past the first, lies a turn's boundary.
abbrev IsSplitAt : ℕ → List Message → Type 0
IsSplitAt k ms = (0 < k) × (k ≤ length ms) × (BeginsWithUser (drop k ms) ⊎ NoUser (drop k ms))

split_from-IsSplitAt :
    (target i running : ℕ) (ms : List Message)
    → ((k : ℕ) × (split_from target i running ms ≡ some (i + k)) × IsSplitAt k ms)
      ⊎ (split_from target i running ms ≡ none)
unfolding split_from
split_from-IsSplitAt target i running [] = inr refl
split_from-IsSplitAt target i running (m ∷ ms) =
    let total = running + length m.content / 4 in
    elim (Bool-cases (leb target total)) [
      | inr less ↦ elim (split_from-IsSplitAt target (suc i) total ms) [
        | inl (k, e, split) ↦
            inl (suc k, at_index (suc i + k) (suc k) (ground arith) (omega arith), later k split)
        | inr e ↦ inr (ground arith)
      ]
      | inl reached ↦ elim (next_user-found (suc i) ms) [
        | inl (k, e, lt, u) ↦ inl (
          suc k,
          at_index (suc i + k) (suc k) (ground arith) (omega arith),
          (omega arith, omega (arith, lt), inl u),
        )
        | inr (e, no_user) ↦ inl (
          1,
          at_index (suc i) 1 (ground arith) (omega arith),
          (omega arith, omega arith, inr no_user),
        )
      ]
    ]
  where
    at_index :
        (j k : ℕ)
        → split_from target i running (m ∷ ms) ≡ some j
        → j ≡ i + k
        → split_from target i running (m ∷ ms) ≡ some (i + k)
    at_index j k e same = e ∙ ap some same

    later : (k : ℕ) → IsSplitAt k ms → IsSplitAt (suc k) (m ∷ ms)
    later k (pos, le, turn) = (omega arith, omega (arith, le), turn)

-- The split is a boundary of turns, or the middle of a history that the loop ran through.
find_split_point_turn :
    (history : List Message) (total : ℕ)
    → let k = find_split_point history total in
      (k ≤ length history)
      × ((BeginsWithUser (drop k history) ⊎ NoUser (drop k history)) ⊎ (k ≡ length history / 2))
unfolding find_split_point
find_split_point_turn history total = elim (split_from-IsSplitAt (total / 2) 0 0 history) [
  | inl (k, e, (pos, le, turn)) ↦ rw (e, find_split_point) (omega (arith, le), inl (shifted k turn))
  | inr e ↦ rw (e, find_split_point) (omega arith, inr refl)
]
  where
    shifted :
        (k : ℕ)
        → BeginsWithUser (drop k history) ⊎ NoUser (drop k history)
        → BeginsWithUser (drop (0 + k) history) ⊎ NoUser (drop (0 + k) history)
    shifted k turn = let e : 0 + k ≡ k = omega arith in rw e turn

-- The contents of tool results are not sent to be summarized.
segment_text-keep_if :
    (string_field : Bytes → Bytes → Option Bytes) (ms : List Message)
    → segment_text string_field ms
      ≡ segment_text string_field (keep_if (λ m. not (has_role tool_role m)) ms)
unfolding segment_text
segment_text-keep_if string_field [] = refl
segment_text-keep_if string_field (m ∷ ms) = ground (arith, segment_text-keep_if string_field ms)

module _ (string_field : Bytes → Bytes → Option Bytes) {World : Type 0}
    (chat : List Message → World → Outcome Bytes ChatResponse × World)
    (store : Bytes → World → Bool × World) (s : Summarizer) where
  -- A history with fewer than six messages of the user, or whose estimate is not above the
  -- threshold, is left alone: no provider is asked and nothing is stored.
  maybe_summarize_short :
      (history : List Message) (w : World)
      → (user_turns history < min_user_turns)
        ⊎ (estimate_history_tokens s history ≤ s.threshold_tokens)
      → maybe_summarize string_field chat store s history w ≡ (ok none, w)
  unfolding maybe_summarize
  maybe_summarize_short history w (inl few) = ground arith
  maybe_summarize_short history w (inr small) = ground arith

  summarize_older_result :
      (older newer : List Message) (w : World) {r : SummarizeResult}
      → (summarize_older string_field chat store s older newer w).0 ≡ ok (some r)
      → (r.remaining_history ≡ summary_message r.summary ∷ newer)
        × (r.facts_extracted ≡ extract_facts older)
  unfolding summarize_older
  summarize_older_result older newer w h = ground arith

  taken :
      (history : List Message) (w : World) {r : SummarizeResult}
      → (maybe_summarize string_field chat store s history w).0 ≡ ok (some r)
      → let k = find_split_point history (estimate_history_tokens s history) in
        (k ≢ 0)
        × ((summarize_older string_field chat store s (take k history) (drop k history) w).0
            ≡ ok (some r))
  unfolding maybe_summarize
  taken history w h = ground arith

  -- A result stands for a part of the history that is not empty and keeps all the rest: the
  -- history that remains is one system message with the summary and then the newer messages,
  -- unchanged. These begin with a message of the user or hold none, unless the history was cut in
  -- its middle.
  pub maybe_summarize_result :
      (history : List Message) (w : World) {r : SummarizeResult}
      → (maybe_summarize string_field chat store s history w).0 ≡ ok (some r)
      → (older : List Message) × (newer : List Message) × (history ≡ older ++ newer)
        × (older ≢ [])
        × (r.remaining_history ≡ summary_message r.summary ∷ newer)
        × (r.facts_extracted ≡ extract_facts older)
        × ((BeginsWithUser newer ⊎ NoUser newer) ⊎ (length older ≡ length history / 2))
  maybe_summarize_result history w {r} h =
      let k = find_split_point history (estimate_history_tokens s history) in
      let (le, turn) = find_split_point_turn history (estimate_history_tokens s history) in
      let (pos, done) = taken history w h in
      let (kept, facts) = summarize_older_result (take k history) (drop k history) w done in
      let len : length (take k history) ≡ k = omega (arith, length-take k history, le) in
      (
        take k history,
        drop k history,
        sym (take-append-drop k history),
        (λ e. pos (sym len ∙ ap length e)),
        kept,
        facts,
        rw len turn,
      )
