-- ===== src/Channel/Split.antt =====
-- `SplitMessage` of internal/channel/telegram.go: a reply cut into chunks that Telegram accepts.
pub mod Laws
use gogoclaw.Base.{
  ℕ, zero, suc, ◌+◌, ◌/◌, ◌==◌, ltb, leb, if◌then◌else◌, Bool, Option, none, some, List, [], ◌∷◌,
  length, take, drop,
}
use gogoclaw.Base.Bytes.{Bytes, bytes, last_index, trim_right}

-- `telegramMaxMessage`
abbrev pub telegram_max_message : ℕ
telegram_max_message = 3500

-- One test of the ladder: a boundary `sub` past a quarter of the chunk, and the place behind it.
boundary : Bytes → ℕ → Bytes → Option ℕ
unfolding last_index
boundary chunk max_len sub = elim (last_index chunk sub) [
  | some idx ↦ if ltb (max_len / 4) idx then some (idx + length sub) else none
  | none ↦ none
]

abbrev or_else : Option ℕ → Option ℕ → Option ℕ
or_else (some i) o = some i
or_else none o = o

-- `splitAt` for `chunk = text[:maxLen]`: a paragraph, a line, a sentence, a word, or the limit.
split_at : Bytes → ℕ → ℕ
unfolding boundary
split_at chunk max_len =
    elim (or_else (boundary chunk max_len (bytes "\n\n")) (
      or_else (boundary chunk max_len (bytes "\n"))
        (or_else (boundary chunk max_len (bytes ". ")) (boundary chunk max_len (bytes " "))))) [
          | some i ↦ i
          | none ↦ max_len
        ]

abbrev pub is_blank : ℕ → Bool
is_blank c = c == 32

-- The loop, on fuel. With a `maxLen` of 0 the source does not return.
split_loop : ℕ → Bytes → ℕ → Option (List Bytes)
unfolding split_at trim_right
split_loop zero text max_len = none
split_loop (suc fuel) text max_len =
    let cut = split_at (take max_len text) max_len in
    let rest : Option (List Bytes) = elim (split_loop fuel (drop cut text) max_len) [
      | some chunks ↦ some (trim_right is_blank (take cut text) ∷ chunks)
      | none ↦ none
    ] in
    if length text == 0
    then some []
    else if leb (length text) max_len
    then some (text ∷ [])
    else rest

unfoldable pub split_message : Bytes → ℕ → Option (List Bytes)
unfolding split_loop
split_message text max_len =
    if leb (length text) max_len
    then some (text ∷ [])
    else split_loop (suc (length text)) text max_len
