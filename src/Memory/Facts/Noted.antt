-- ===== src/Memory/Facts/Noted.antt =====
-- Which facts a line gives.
use mathlib.Core.List.{Memᴰ}
use mathlib.Core.List.Memᴰ
use gogoclaw.Base.{
  ◌≡◌, ◌≢◌, ◌≤◌, ◌↔◌, ◌⊎◌, refl, sym, ap, ◌∙◌, subst, inl, inr, arith, Bool, true, false, not, ◌||◌,
  List, [], ◌∷◌, ◌++◌, any_of, length, Bool-cases,
}
use gogoclaw.Base.Bytes.{
  Bytes, bytes, bytes_eq, bytes_eq_iff, trim_space, has_prefix, has_suffix, contains, to_lower,
}
use gogoclaw.Memory.Facts.{
  is_factual, is_skipped, clean_line, seen_fact, add_line, factual_prefixes,
}

-- The line holds one of the phrases, in any case.
abbrev pub HasPhrase : Bytes → Type 0
HasPhrase line = (p : Bytes) × Memᴰ p factual_prefixes × (contains (to_lower line) p ≡ true)

-- `fact` is what a line of 20 bytes or more says that holds a phrase, asks nothing and is no
-- output of a tool.
abbrev pub IsNoted : Bytes → Bytes → Type 0
IsNoted line fact =
    (20 ≤ length line)
    × (has_suffix line (bytes "?") ≡ false)
    × (has_prefix line (bytes "[tool:") ≡ false)
    × (has_prefix line (bytes "[result:") ≡ false)
    × HasPhrase line
    × (fact ≡ clean_line line)
    × (fact ≢ [])

any_of-Memᴰ :
    (p : Bytes → Bool) (xs : List Bytes)
    → any_of p xs ≡ true
    → (x : Bytes) × Memᴰ x xs × (p x ≡ true)
any_of-Memᴰ p [] h = absurd (ground (arith, h))
any_of-Memᴰ p (x ∷ xs) h = elim (Bool-cases (p x)) [
  | inl e ↦ (x, Memᴰ.head refl, e)
  | inr e ↦ let (y, i, f) = any_of-Memᴰ p xs (ground (arith, h, e)) in (y, Memᴰ.tail i, f)
]

Memᴰ-any_of :
    (p : Bytes → Bool) (xs : List Bytes) (x : Bytes) → Memᴰ x xs → p x ≡ true → any_of p xs ≡ true
Memᴰ-any_of p [] x i h = elim i [ ]
Memᴰ-any_of p (y ∷ ys) x (Memᴰ.head e) h =
    let f : p y ≡ true = ap p (sym e) ∙ h in ground (arith, f)
Memᴰ-any_of p (y ∷ ys) x (Memᴰ.tail i) h = ground (arith, Memᴰ-any_of p ys x i h)

seen_fact-Memᴰ : (f : Bytes) (fs : List Bytes) → seen_fact f fs ≡ true → Memᴰ f fs
seen_fact-Memᴰ f fs h =
    let (g, i, e) = any_of-Memᴰ (bytes_eq f) fs h in
    subst (λ x. Memᴰ x fs) (sym ((bytes_eq_iff f g).0 e)) i

is_skipped_iff :
    (line : Bytes)
    → (is_skipped line ≡ false) ↔ (
        (20 ≤ length line)
        × (has_suffix line (bytes "?") ≡ false)
        × (has_prefix line (bytes "[tool:") ≡ false)
        × (has_prefix line (bytes "[result:") ≡ false))
unfolding is_skipped
is_skipped_iff line = ground arith

is_factual_iff : (line : Bytes) → (is_factual line ≡ true) ↔ HasPhrase line
unfolding is_factual
is_factual_iff line = (
  any_of-Memᴰ (contains (to_lower line)) factual_prefixes,
  λ h. Memᴰ-any_of (contains (to_lower line)) factual_prefixes h.0 h.1 h.2,
)

pub or_left : (a b : Bool) → a || b ≡ false → a ≡ false
or_left a b h = ground arith

pub or_right : (a b : Bool) → a || b ≡ false → b ≡ false
or_right a b h = ground arith

pub unnot : (b : Bool) → not b ≡ false → b ≡ true
unnot b h = ground arith

not_empty : (xs : Bytes) → bytes_eq xs [] ≡ false → xs ≢ []
not_empty xs h e = ground (arith, bytes_eq_iff xs [])

empty_no : (xs : Bytes) → xs ≢ [] → bytes_eq xs [] ≡ false
empty_no xs h = ground (arith, bytes_eq_iff xs [], h)

-- A line notes the text that is left of it.
keep-IsNoted :
    (line : Bytes)
    → is_skipped line || not (is_factual line) ≡ false
    → clean_line line ≢ []
    → IsNoted line (clean_line line)
keep-IsNoted line keep some_text =
    let (a, b, c, d) =
      (is_skipped_iff line).0 (or_left (is_skipped line) (not (is_factual line)) keep) in
    (
      a,
      b,
      c,
      d,
      (is_factual_iff line).0
          (unnot (is_factual line) (or_right (is_skipped line) (not (is_factual line)) keep)),
      refl,
      some_text,
    )

IsNoted-keep : (line f : Bytes) → IsNoted line f → is_skipped line || not (is_factual line) ≡ false
IsNoted-keep line f (a, b, c, d, phrase, same, some_text) =
    ground (arith, (is_skipped_iff line).1 (a, b, c, d), (is_factual_iff line).1 phrase)

pub add_line-found :
    (facts : List Bytes) (raw f : Bytes)
    → Memᴰ f (add_line facts raw)
    → Memᴰ f facts ⊎ IsNoted (trim_space raw) f
unfolding add_line
add_line-found facts raw f i =
    let line = trim_space raw in
    let clean = clean_line line in
    elim (Bool-cases (is_skipped line || not (is_factual line))) [
      | inl skip ↦ inl (rw (skip, add_line) at i)
      | inr keep ↦ elim (Bool-cases (bytes_eq clean [] || seen_fact clean facts)) [
        | inl old ↦ inl (rw (keep, add_line, old, add_line) at i)
        | inr new ↦
            let j : Memᴰ f (facts ++ (clean ∷ [])) = (rw (keep, add_line, new, add_line) at i) in
            elim (Memᴰ.append_cases facts j) [
              | inl k ↦ inl k
              | inr k ↦ inr (
                  subst (IsNoted line) (sym (Memᴰ.eq_of_singleton k)) (
                    keep-IsNoted line keep
                      (not_empty clean (or_left (bytes_eq clean []) (seen_fact clean facts) new))))
            ]
      ]
    ]

pub add_line-old : (facts : List Bytes) (raw f : Bytes) → Memᴰ f facts → Memᴰ f (add_line facts raw)
unfolding add_line
add_line-old facts raw f i =
    let line = trim_space raw in
    let clean = clean_line line in
    elim (Bool-cases (is_skipped line || not (is_factual line))) [
      | inl skip ↦ rw (skip, add_line) i
      | inr keep ↦ elim (Bool-cases (bytes_eq clean [] || seen_fact clean facts)) [
        | inl old ↦ rw (keep, add_line, old, add_line) i
        | inr new ↦ rw (keep, add_line, new, add_line) (Memᴰ.append_left (clean ∷ []) i)
      ]
    ]

pub add_line-new :
    (facts : List Bytes) (raw f : Bytes) → IsNoted (trim_space raw) f → Memᴰ f (add_line facts raw)
unfolding add_line
add_line-new facts raw f noted =
    let line = trim_space raw in
    let clean = clean_line line in
    let (_, _, _, _, _, same, some_text) = noted in
    let keep = IsNoted-keep line f noted in
    elim (Bool-cases (seen_fact clean facts)) [
      | inl seen ↦
          let old : bytes_eq clean [] || seen_fact clean facts ≡ true = ground (arith, seen) in
          rw (keep, add_line, old, add_line)
            (subst (λ x. Memᴰ x facts) (sym same) (seen_fact-Memᴰ clean facts seen))
      | inr unseen ↦
          let text : bytes_eq clean [] ≡ false = empty_no clean (λ e. some_text (same ∙ e)) in
          let new : bytes_eq clean [] || seen_fact clean facts ≡ false =
            ground (arith, unseen, text) in
          rw (keep, add_line, new, add_line) (Memᴰ.append_right facts (Memᴰ.head same))
    ]
