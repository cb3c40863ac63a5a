-- ===== src/Memory/Facts/Found.antt =====
-- Which facts the lines of a message and the messages give.
use mathlib.Core.List.{Memᴰ}
use mathlib.Core.List.Memᴰ
use gogoclaw.Base.{
  ◌≡◌, ◌≤◌, ◌⊎◌, refl, sym, ap, ◌∙◌, subst, inl, inr, arith, not, ◌||◌, List, [], ◌∷◌, length,
  Bool-cases,
}
use gogoclaw.Base.Bytes.{Bytes, bytes_eq, bytes_eq_iff, trim_space}
use gogoclaw.Provider.{Message, assistant_role}
use gogoclaw.Memory.Facts.{add_line, add_lines, add_messages, split_lines}
use gogoclaw.Memory.Facts.Noted.{
  IsNoted, or_left, unnot, add_line-found, add_line-old, add_line-new,
}

abbrev pub IsNotedIn : List Bytes → Bytes → Type 0
IsNotedIn ls fact = (raw : Bytes) × Memᴰ raw ls × IsNoted (trim_space raw) fact

-- `fact` is noted in a line of one of the assistant's messages.
abbrev pub IsFact : List Message → Bytes → Type 0
IsFact ms fact =
    (m : Message) × Memᴰ m ms × (m.role ≡ assistant_role) × IsNotedIn (split_lines m.content) fact

add_lines-found :
    (ls facts : List Bytes) (f : Bytes)
    → Memᴰ f (add_lines facts ls)
    → Memᴰ f facts ⊎ IsNotedIn ls f
unfolding add_lines
add_lines-found [] facts f i = inl i
add_lines-found (l ∷ ls) facts f i = elim (add_lines-found ls (add_line facts l) f i) [
  | inr (raw, j, noted) ↦ inr (raw, Memᴰ.tail j, noted)
  | inl j ↦ elim (add_line-found facts l f j) [
    | inl k ↦ inl k
    | inr noted ↦ inr (l, Memᴰ.head refl, noted)
  ]
]

add_lines-old : (ls facts : List Bytes) (f : Bytes) → Memᴰ f facts → Memᴰ f (add_lines facts ls)
unfolding add_lines
add_lines-old [] facts f i = i
add_lines-old (l ∷ ls) facts f i = add_lines-old ls (add_line facts l) f (add_line-old facts l f i)

add_lines-new :
    (ls facts : List Bytes) (f raw : Bytes)
    → Memᴰ raw ls
    → IsNoted (trim_space raw) f
    → Memᴰ f (add_lines facts ls)
unfolding add_lines
add_lines-new [] facts f raw i noted = elim i [ ]
add_lines-new (l ∷ ls) facts f raw i noted = elim (Memᴰ.cases_cons i) [
  | inr j ↦ add_lines-new ls (add_line facts l) f raw j noted
  | inl e ↦
      add_lines-old ls (add_line facts l) f
        (add_line-new facts l f (subst (λ x. IsNoted (trim_space x) f) e noted))
]

-- An empty message has one line, and that line is too short.
empty_notes : (f : Bytes) → IsNotedIn (split_lines []) f → ⊥
unfolding split_lines trim_space
empty_notes f (raw, i, noted) =
    let short : 20 ≤ length (trim_space []) =
      subst (λ x. 20 ≤ length (trim_space x)) (Memᴰ.eq_of_singleton i) noted.0 in
    absurd (omega (arith, short))

pub add_messages-found :
    (ms : List Message) (facts : List Bytes) (f : Bytes)
    → Memᴰ f (add_messages facts ms)
    → Memᴰ f facts ⊎ IsFact ms f
unfolding add_messages
add_messages-found [] facts f i = inl i
add_messages-found (m ∷ ms) facts f i =
    let later : IsFact ms f → Memᴰ f facts ⊎ IsFact (m ∷ ms) f =
      λ h. inr (h.0, Memᴰ.tail h.1, h.2, h.3) in
    elim (Bool-cases (not (bytes_eq m.role assistant_role) || bytes_eq m.content [])) [
      | inl y ↦ elim (add_messages-found ms facts f (rw y at i)) [ inl j ↦ inl j | inr h ↦ later h ]
      | inr n ↦
          elim (add_messages-found ms (add_lines facts (split_lines m.content)) f (rw n at i)) [
            | inr h ↦ later h
            | inl j ↦ elim (add_lines-found (split_lines m.content) facts f j) [
              | inl k ↦ inl k
              | inr noted ↦ inr (
                m,
                Memᴰ.head refl,
                (bytes_eq_iff m.role assistant_role).0 (
                    unnot (bytes_eq m.role assistant_role)
                      (or_left (not (bytes_eq m.role assistant_role)) (bytes_eq m.content []) n)),
                noted,
              )
            ]
          ]
    ]

add_messages-old :
    (ms : List Message) (facts : List Bytes) (f : Bytes)
    → Memᴰ f facts
    → Memᴰ f (add_messages facts ms)
unfolding add_messages
add_messages-old [] facts f i = i
add_messages-old (m ∷ ms) facts f i =
    elim (Bool-cases (not (bytes_eq m.role assistant_role) || bytes_eq m.content [])) [
      | inl y ↦ rw y (add_messages-old ms facts f i)
      | inr n ↦ rw n (
          add_messages-old ms (add_lines facts (split_lines m.content)) f
            (add_lines-old (split_lines m.content) facts f i))
    ]

pub add_messages-new :
    (ms : List Message) (facts : List Bytes) (f : Bytes)
    → IsFact ms f
    → Memᴰ f (add_messages facts ms)
unfolding add_messages
add_messages-new [] facts f h = elim h.1 [ ]
add_messages-new (m ∷ ms) facts f (n, i, said, noted) =
    elim (Bool-cases (not (bytes_eq m.role assistant_role) || bytes_eq m.content [])) [
      | inl y ↦ elim (Memᴰ.cases_cons i) [
        | inr j ↦ rw y (add_messages-new ms facts f (n, j, said, noted))
        | inl e ↦
            let role : m.role ≡ assistant_role = ap (λ (x : Message). x.role) (sym e) ∙ said in
            let none_said : m.content ≡ [] =
              ground
                (arith, y, bytes_eq_iff m.role assistant_role, role, bytes_eq_iff m.content []) in
            absurd (
              empty_notes f (
                subst (λ x. IsNotedIn (split_lines x) f)
                  (ap (λ (x : Message). x.content) e ∙ none_said) noted))
      ]
      | inr y ↦ elim (Memᴰ.cases_cons i) [
        | inr j ↦
            rw y
              (add_messages-new ms (add_lines facts (split_lines m.content)) f (n, j, said, noted))
        | inl e ↦
            let (raw, k, noted') =
              subst (λ (x : Message). IsNotedIn (split_lines x.content) f) e noted in
            rw y (
              add_messages-old ms (add_lines facts (split_lines m.content)) f
                (add_lines-new (split_lines m.content) facts f raw k noted'))
      ]
    ]
