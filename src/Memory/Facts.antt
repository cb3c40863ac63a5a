-- ===== src/Memory/Facts.antt =====
-- `ExtractFacts` and `ExtractAndSave` of internal/memory/writer.go. `store` is the vector store:
-- whether it has stored a document, and its world after the attempt. The daily file is not
-- written here: the only caller gives no directory for it.
pub mod Noted
pub mod Found
pub mod Laws
use gogoclaw.Base.{
  ℕ, ◌==◌, ltb, ◌||◌, Bool, true, false, not, if◌then◌else◌, List, [], ◌∷◌, ◌++◌, length, any_of,
}
use gogoclaw.Base.Bytes.{
  Bytes, bytes, bytes_eq, has_prefix, has_suffix, contains, to_lower, trim_left, trim_space,
}
use gogoclaw.Provider.{Message, assistant_role}

abbrev consed : ℕ → List Bytes → List Bytes
consed b [] = (b ∷ []) ∷ []
consed b (l ∷ ls) = (b ∷ l) ∷ ls

-- `strings.Split(s, "\n")`
unfoldable pub split_lines : Bytes → List Bytes
split_lines [] = [] ∷ []
split_lines (b ∷ bs) = if b == 10 then [] ∷ split_lines bs else consed b (split_lines bs)

abbrev pub factual_prefixes : List Bytes
factual_prefixes =
    bytes "you prefer"
    ∷ bytes "you like"
    ∷ bytes "you want"
    ∷ bytes "you need"
    ∷ bytes "your "
    ∷ bytes "i'll remember"
    ∷ bytes "i've noted"
    ∷ bytes "noted:"
    ∷ bytes "the user"
    ∷ bytes "important:"
    ∷ bytes "key point:"
    ∷ bytes "decision:"
    ∷ bytes "preference:"
    ∷ bytes "remember:"
    ∷ bytes "fact:"
    ∷ []

unfoldable pub is_factual : Bytes → Bool
unfolding contains to_lower
is_factual line = any_of (contains (to_lower line)) factual_prefixes

-- The lines that are passed over, the empty line among the short ones.
unfoldable pub is_skipped : Bytes → Bool
unfolding has_prefix has_suffix
is_skipped line =
    ltb (length line) 20
    || has_suffix line (bytes "?")
    || (has_prefix line (bytes "[tool:") || has_prefix line (bytes "[result:"))

-- The bytes of `"- *>#"`.
abbrev is_marker : ℕ → Bool
is_marker c = any_of (λ m. m == c) (bytes "- *>#")

unfoldable pub clean_line : Bytes → Bytes
unfolding trim_left trim_space
clean_line line = trim_space (trim_left is_marker line)

abbrev pub seen_fact : Bytes → List Bytes → Bool
seen_fact fact = any_of (bytes_eq fact)

-- One line: `facts` are those found before, which are also those seen.
pub add_line : List Bytes → Bytes → List Bytes
unfolding is_skipped is_factual clean_line
add_line facts raw =
    let line = trim_space raw in
    let clean = clean_line line in
    if is_skipped line || not (is_factual line)
    then facts
    else if bytes_eq clean [] || seen_fact clean facts
    then facts
    else facts ++ (clean ∷ [])

pub add_lines : List Bytes → List Bytes → List Bytes
unfolding add_line
add_lines facts [] = facts
add_lines facts (l ∷ ls) = add_lines (add_line facts l) ls

pub add_messages : List Bytes → List Message → List Bytes
unfolding add_lines split_lines
add_messages facts [] = facts
add_messages facts (m ∷ ms) =
    let found =
      if not (bytes_eq m.role assistant_role) || bytes_eq m.content []
      then facts
      else add_lines facts (split_lines m.content) in
    add_messages found ms

-- `ExtractFacts`
unfoldable pub extract_facts : List Message → List Bytes
unfolding add_messages
extract_facts = add_messages []

module _ {World : Type 0} (store : Bytes → World → Bool × World) where
  -- A fact that cannot be stored is passed over.
  store_facts : List Bytes → World → World
  store_facts [] w = w
  store_facts (f ∷ fs) w = store_facts fs (store f w).1

  -- `ExtractAndSave`
  unfoldable pub extract_and_save : List Message → World → World
  unfolding store_facts extract_facts
  extract_and_save ms = store_facts (extract_facts ms)
