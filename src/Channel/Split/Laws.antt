-- ===== src/Channel/Split/Laws.antt =====
-- What `SplitMessage` keeps, and that it returns.
use mathlib.Core.Path.{ap₂}
use mathlib.Core.List.{flatten, append-nil}
use gogoclaw.Base.{
  ℕ, zero, suc, ◌≤◌, ◌<◌, ◌≡◌, ◌++◌, refl, not, some, arith, List, ◌∷◌, [], All, length, take, drop,
  length-take, length-drop, keep_if, keep_if-append, take-append-drop, inl, inr, sym, ap, ◌∙◌, leb,
  Option-cases, Bool-cases,
}
use gogoclaw.Base.Bytes.{
  Bytes, last_index-le, last_index, trim_right, length-trim_right-le, keep_if-trim_right,
}
use gogoclaw.Channel.Split.{boundary, split_at, split_loop, is_blank, split_message}

boundary_bounds :
    (chunk : Bytes) (m : ℕ) (sub : Bytes) (r : ℕ)
    → boundary chunk m sub ≡ some r
    → (0 < r) × (r ≤ length chunk)
unfolding boundary
boundary_bounds chunk m sub r h = elim (Option-cases (last_index chunk sub)) [
  | inl e ↦ ground arith
  | inr (i, e) ↦ ground (arith, last_index-le chunk sub i)
]

split_at_bounds :
    (chunk : Bytes) (m : ℕ)
    → 0 < m
    → length chunk ≤ m
    → (0 < split_at chunk m) × (split_at chunk m ≤ m)
unfolding split_at
split_at_bounds chunk m p h = grind (arith, boundary_bounds)

-- The text without its spaces.
abbrev pub solid : Bytes → Bytes
solid = keep_if (λ c. not (is_blank c))

abbrev pub IsSplit : Bytes → ℕ → List Bytes → Type 0
IsSplit text m chunks = All (λ c. length c ≤ m) chunks × (solid (flatten chunks) ≡ solid text)

flatten_one : (xs : Bytes) → flatten (xs ∷ []) ≡ xs
unfolding flatten
flatten_one xs = append-nil xs

IsSplit-cons :
    (text : Bytes) (m cut : ℕ) (chunks : List Bytes)
    → cut ≤ m
    → IsSplit (drop cut text) m chunks
    → IsSplit text m (trim_right is_blank (take cut text) ∷ chunks)
unfolding flatten trim_right
IsSplit-cons text m cut chunks h (short, same) = (
  (omega (arith, length-trim_right-le is_blank (take cut text), length-take cut text), short),
  keep_if-append (λ c. not (is_blank c)) (trim_right is_blank (take cut text)) (flatten chunks)
      ∙ ap₂ ◌++◌ (keep_if-trim_right is_blank (take cut text)) same
      ∙ sym (keep_if-append (λ c. not (is_blank c)) (take cut text) (drop cut text))
      ∙ ap solid (take-append-drop cut text),
)

split_loop_total :
    (fuel : ℕ) (text : Bytes) (m : ℕ)
    → 0 < m
    → length text < fuel
    → (chunks : List Bytes) × (split_loop fuel text m ≡ some chunks) × IsSplit text m chunks
unfolding split_loop flatten
split_loop_total zero text m p h = elim h [ ]
split_loop_total (suc fuel) [] m p h = ([], refl, (tt, refl))
split_loop_total (suc fuel) (x ∷ xs) m p h =
    let text = x ∷ xs in
    let cut = split_at (take m text) m in
    let bounds = split_at_bounds (take m text) m p (omega (arith, length-take m text)) in
    elim (Bool-cases (leb (length text) m)) [
      | inl fits ↦ (text ∷ [], ground arith, ((ground arith, tt), ap solid (flatten_one text)))
      | inr long ↦
          let (chunks, e, s) =
            split_loop_total fuel (drop cut text) m p
              (omega (arith, length-drop cut text, bounds)) in
          (
            trim_right is_blank (take cut text) ∷ chunks,
            ground arith,
            IsSplit-cons text m cut chunks bounds.1 s,
          )
    ]

-- For a positive limit `SplitMessage` returns, no chunk is longer than the limit, and the chunks
-- put together are the text but for spaces.
pub split_message_lem :
    (text : Bytes) (m : ℕ)
    → 0 < m
    → (chunks : List Bytes) × (split_message text m ≡ some chunks) × IsSplit text m chunks
unfolding split_message
split_message_lem text m p = elim (Bool-cases (leb (length text) m)) [
  | inl fits ↦ (text ∷ [], ground arith, ((ground arith, tt), ap solid (flatten_one text)))
  | inr long ↦
      let (chunks, e, s) = split_loop_total (suc (length text)) text m p (omega arith) in
      (chunks, ground arith, s)
]
