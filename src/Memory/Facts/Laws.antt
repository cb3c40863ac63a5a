-- ===== src/Memory/Facts/Laws.antt =====
-- What is taken for a fact.
use mathlib.Core.List.{Memᴰ}
use gogoclaw.Memory.Facts.Found.{IsFact, add_messages-found, add_messages-new}
use gogoclaw.Memory.Facts.Noted.{or_right}
use gogoclaw.Base.{
  ◌≡◌, ◌↔◌, ◌⊎◌, refl, inl, inr, arith, false, not, ◌||◌, List, [], ◌∷◌, ◌++◌, Bool-cases,
}
use gogoclaw.Base.Bytes.{Bytes, bytes_eq, bytes_eq_iff, trim_space}
use gogoclaw.Provider.{Message, assistant_role}
use gogoclaw.Memory.Facts.{
  is_factual, is_skipped, clean_line, seen_fact, add_line, add_lines, add_messages, split_lines,
  extract_facts,
}

abbrev pub IsDistinct : List Bytes → Type 0
IsDistinct [] = Unit {0}
IsDistinct (f ∷ fs) = (seen_fact f fs ≡ false) × IsDistinct fs

seen_fact-append :
    (f c : Bytes) (fs : List Bytes)
    → seen_fact f (fs ++ (c ∷ [])) ≡ (seen_fact f fs || bytes_eq f c)
seen_fact-append f c [] = ground arith
seen_fact-append f c (g ∷ gs) = ground (arith, seen_fact-append f c gs)

append-IsDistinct :
    (fs : List Bytes) (c : Bytes)
    → IsDistinct fs
    → seen_fact c fs ≡ false
    → IsDistinct (fs ++ (c ∷ []))
append-IsDistinct [] c d new = (refl, tt)
append-IsDistinct (f ∷ fs) c (d, ds) new = (
  ground (arith, seen_fact-append f c fs, bytes_eq_iff f c, bytes_eq_iff c f),
  append-IsDistinct fs c ds (ground arith),
)

add_line-IsDistinct :
    (facts : List Bytes) (raw : Bytes) → IsDistinct facts → IsDistinct (add_line facts raw)
unfolding add_line
add_line-IsDistinct facts raw d =
    let line = trim_space raw in
    let clean = clean_line line in
    elim (Bool-cases (is_skipped line || not (is_factual line))) [
      | inl skip ↦ rw (skip, add_line) d
      | inr keep ↦ elim (Bool-cases (bytes_eq clean [] || seen_fact clean facts)) [
        | inl old ↦ rw (keep, add_line, old, add_line) d
        | inr new ↦
            rw (keep, add_line, new, add_line)
              (append-IsDistinct facts clean d
                (or_right (bytes_eq clean []) (seen_fact clean facts) new))
      ]
    ]

add_lines-IsDistinct : (ls facts : List Bytes) → IsDistinct facts → IsDistinct (add_lines facts ls)
unfolding add_lines
add_lines-IsDistinct [] facts d = d
add_lines-IsDistinct (l ∷ ls) facts d =
    add_lines-IsDistinct ls (add_line facts l) (add_line-IsDistinct facts l d)

add_messages-IsDistinct :
    (ms : List Message) (facts : List Bytes) → IsDistinct facts → IsDistinct (add_messages facts ms)
unfolding add_messages
add_messages-IsDistinct [] facts d = d
add_messages-IsDistinct (m ∷ ms) facts d =
    elim (Bool-cases (not (bytes_eq m.role assistant_role) || bytes_eq m.content [])) [
      | inl y ↦ rw y (add_messages-IsDistinct ms facts d)
      | inr n ↦ rw n (
          add_messages-IsDistinct ms (add_lines facts (split_lines m.content))
            (add_lines-IsDistinct (split_lines m.content) facts d))
    ]

only_found : (ms : List Message) (f : Bytes) → Memᴰ f [] ⊎ IsFact ms f → IsFact ms f
only_found ms f (inl i) = elim i [ ]
only_found ms f (inr h) = h

-- A text is extracted exactly when it is what is left, not empty, of a line of one of the
-- assistant's messages that has 20 bytes or more without the space around it, does not end in a
-- question mark or begin like the output of a tool, and holds one of the phrases in any case; and
-- no text is extracted twice.
pub extract_facts-IsFact :
    (ms : List Message) (fact : Bytes)
    → (Memᴰ fact (extract_facts ms) ↔ IsFact ms fact) × IsDistinct (extract_facts ms)
unfolding extract_facts
extract_facts-IsFact ms fact = (
  (λ i. only_found ms fact (add_messages-found ms [] fact i), add_messages-new ms [] fact),
  add_messages-IsDistinct ms [] tt,
)
