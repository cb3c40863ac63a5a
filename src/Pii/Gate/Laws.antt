-- ===== src/Pii/Gate/Laws.antt =====
-- internal/pii/gate.go: which requests are held back, and what overrides do.
use gogoclaw.Base.{
  ◌≡◌, ◌≢◌, ◌⊎◌, refl, sym, ap, ◌∙◌, inl, inr, arith, true, false, none, some, List, [], ◌∷◌, ◌++◌,
  Bool-cases,
}
use gogoclaw.Base.Bytes.{Bytes, bytes_eq, bytes_eq_iff, bytes_eq_refl}
use gogoclaw.Base.Outcome.{Outcome, ok}
use gogoclaw.Provider.{Message, ChatResponse}
use gogoclaw.Pii.Classifier.{Detection, PatternType, Regexp, detect, pattern_types}
use gogoclaw.Pii.Gate.{
  Mode, strict, warn, permissive, disabled, unknown, Gate, without, set_conversation_override,
  clear_conversation_override, find_mode, effective_mode, block_text, is_assistant, scan, act_on,
  on_detections, check_in_mode, check_messages, forward, chat,
}

-- Some message that is not the assistant's has a detection.
abbrev pub HasSensitive : Regexp → List Message → Type 0
HasSensitive spans [] = ⊥
HasSensitive spans (m ∷ ms) =
    ((is_assistant m ≡ false) × (detect spans m.content ≢ [])) ⊎ HasSensitive spans ms

abbrev pub IsBlocked : Regexp → Gate → List Message → Type 0
IsBlocked spans g msgs =
    (effective_mode g [] ≡ strict) × (g.is_local ≡ false) × HasSensitive spans msgs

append_nil : {A : Type 0} (xs ys : List A) → xs ++ ys ≡ [] → (xs ≡ []) × (ys ≡ [])
append_nil [] ys e = (refl, e)
append_nil (x ∷ xs) ys e = cc

nil_or_not : {A : Type 0} (xs : List A) → (xs ≡ []) ⊎ (xs ≢ [])
nil_or_not [] = inl refl
nil_or_not (x ∷ xs) = inr (λ e. cc)

module _ (spans : Regexp) where
  scan_assistant :
      (m : Message) (ms : List Message)
      → is_assistant m ≡ true
      → scan spans (m ∷ ms) ≡ scan spans ms
  unfolding scan
  scan_assistant m ms e = ground arith

  scan_other :
      (m : Message) (ms : List Message)
      → is_assistant m ≡ false
      → scan spans (m ∷ ms) ≡ detect spans m.content ++ scan spans ms
  unfolding scan
  scan_other m ms e = ground arith

  scan_clear : (msgs : List Message) → scan spans msgs ≡ [] → ¬ HasSensitive spans msgs
  scan_clear [] e h = h
  scan_clear (m ∷ ms) e (inl (other, found)) =
      found (append_nil _ _ (sym (scan_other m ms other) ∙ e)).0
  scan_clear (m ∷ ms) e (inr h) = elim (Bool-cases (is_assistant m)) [
    | inl y ↦ scan_clear ms (sym (scan_assistant m ms y) ∙ e) h
    | inr n ↦ scan_clear ms (append_nil _ _ (sym (scan_other m ms n) ∙ e)).1 h
  ]

  scan_found : (msgs : List Message) → scan spans msgs ≢ [] → HasSensitive spans msgs
  unfolding scan
  scan_found [] ne = absurd (ne refl)
  scan_found (m ∷ ms) ne = elim (Bool-cases (is_assistant m)) [
    | inl y ↦ inr (scan_found ms (λ e. ne (scan_assistant m ms y ∙ e)))
    | inr n ↦ elim (nil_or_not (detect spans m.content)) [
      | inl none_here ↦ inr (scan_found ms (λ e. ne (scan_other m ms n ∙ rw none_here e)))
      | inr here ↦ inl (n, here)
    ]
  ]

on_detections_strict :
    (g : Gate) (ds : List Detection)
    → g.is_local ≡ false
    → ds ≢ []
    → (on_detections g strict ds).0 ≡ some (block_text (pattern_types ds))
unfolding on_detections act_on
on_detections_strict g [] cloud ne = absurd (ne refl)
on_detections_strict g (d ∷ ds) cloud ne = ground arith

on_detections_local :
    (g : Gate) (ds : List Detection) → g.is_local ≡ true → (on_detections g strict ds).0 ≡ none
unfolding on_detections act_on
on_detections_local g [] l = refl
on_detections_local g (d ∷ ds) l = ground arith

on_detections_lenient :
    (g : Gate) (m : Mode) (ds : List Detection) → m ≢ strict → (on_detections g m ds).0 ≡ none
unfolding on_detections act_on
on_detections_lenient g m [] ne = refl
on_detections_lenient g strict (d ∷ ds) ne = absurd (ne refl)
on_detections_lenient g warn (d ∷ ds) ne = refl
on_detections_lenient g permissive (d ∷ ds) ne = refl
on_detections_lenient g disabled (d ∷ ds) ne = refl
on_detections_lenient g (unknown x) (d ∷ ds) ne = refl

module _ (spans : Regexp) (g : Gate) (msgs : List Message) where
  check_in_mode_strict :
      check_in_mode spans g strict msgs ≡ on_detections g strict (scan spans msgs)
  unfolding check_in_mode
  check_in_mode_strict = refl

  check_in_mode_lenient : (m : Mode) → m ≢ strict → (check_in_mode spans g m msgs).0 ≡ none
  unfolding check_in_mode
  check_in_mode_lenient disabled ne = refl
  check_in_mode_lenient strict ne = absurd (ne refl)
  check_in_mode_lenient warn ne = on_detections_lenient g warn (scan spans msgs) ne
  check_in_mode_lenient permissive ne = on_detections_lenient g permissive (scan spans msgs) ne
  check_in_mode_lenient (unknown x) ne = on_detections_lenient g (unknown x) (scan spans msgs) ne

  strict_or_not : (m : Mode) → (m ≡ strict) ⊎ (m ≢ strict)
  strict_or_not strict = inl refl
  strict_or_not warn = inr (λ e. cc)
  strict_or_not permissive = inr (λ e. cc)
  strict_or_not disabled = inr (λ e. cc)
  strict_or_not (unknown x) = inr (λ e. cc)

  check_messages_strict :
      effective_mode g [] ≡ strict
      → check_messages spans g msgs [] ≡ on_detections g strict (scan spans msgs)
  unfolding check_messages
  check_messages_strict e = rw e check_in_mode_strict

  check_messages-IsBlocked :
      IsBlocked spans g msgs
      → (check_messages spans g msgs []).0 ≡ some (block_text (pattern_types (scan spans msgs)))
  check_messages-IsBlocked (e, cloud, h) =
      rw (check_messages_strict e)
        (on_detections_strict g (scan spans msgs) cloud (λ z. scan_clear spans msgs z h))

  check_messages_passed : ¬ IsBlocked spans g msgs → (check_messages spans g msgs []).0 ≡ none
  unfolding check_messages on_detections
  check_messages_passed free = elim (strict_or_not (effective_mode g [])) [
    | inr ne ↦ check_in_mode_lenient (effective_mode g []) ne
    | inl e ↦ elim (Bool-cases g.is_local) [
      | inl here ↦ rw (check_messages_strict e) (on_detections_local g (scan spans msgs) here)
      | inr cloud ↦ elim (nil_or_not (scan spans msgs)) [
        | inl clear ↦ rw (check_messages_strict e) (rw clear refl)
        | inr found ↦ absurd (free (e, cloud, scan_found spans msgs found))
      ]
    ]
  ]

-- The request reaches the inner provider unless the mode is strict, the provider is not local and
-- some message that is not the assistant's has a detection; a request that is held back is
-- answered with a text that names the types detected, and leaves the inner provider as it was.
pub chat_lem :
    {World : Type 0} (inner : List Message → World → Outcome Bytes ChatResponse × World)
    (spans : Regexp) (g : Gate) (msgs : List Message) (w : World)
    → (IsBlocked spans g msgs
        → (chat inner spans g msgs w).0 ≡ (
          ok record { content = block_text (pattern_types (scan spans msgs)); tool_calls = [] },
          w,
        ))
      × (¬ IsBlocked spans g msgs → (chat inner spans g msgs w).0 ≡ inner msgs w)
unfolding chat forward
chat_lem inner spans g msgs w = (
  (λ held. ap (λ b. forward inner b msgs w) (check_messages-IsBlocked spans g msgs held)),
  (λ free. ap (λ b. forward inner b msgs w) (check_messages_passed spans g msgs free)),
)

module _ (base : Mode) where
  find_mode-without_same :
      (conv : Bytes) (os : List (Bytes × Mode)) → find_mode conv base (without conv os) ≡ base
  unfolding find_mode without
  find_mode-without_same conv [] = refl
  find_mode-without_same conv ((c, m) ∷ os) = ground (arith, find_mode-without_same conv os)

  find_mode-without_other :
      (conv other : Bytes) (os : List (Bytes × Mode))
      → conv ≢ other
      → find_mode other base (without conv os) ≡ find_mode other base os
  unfolding find_mode without
  find_mode-without_other conv other [] ne = refl
  find_mode-without_other conv other ((c, m) ∷ os) ne =
      ground
        (arith, find_mode-without_other conv other os ne, bytes_eq_iff c conv, bytes_eq_iff c other)

-- A conversation gets the mode of its override, and the gate's own when the override is cleared;
-- every other conversation keeps its mode.
pub effective_mode-set_conversation_override :
    (g : Gate) (conv other : Bytes) (mode : Mode)
    → conv ≢ other
    → (effective_mode (set_conversation_override g conv mode) conv ≡ mode)
      × (effective_mode
            (clear_conversation_override (set_conversation_override g conv mode) conv)
            conv
          ≡ g.mode)
      × (effective_mode (set_conversation_override g conv mode) other ≡ effective_mode g other)
      × (effective_mode (clear_conversation_override g conv) other ≡ effective_mode g other)
unfolding effective_mode set_conversation_override clear_conversation_override find_mode
effective_mode-set_conversation_override g conv other mode ne = (
  ground (arith, bytes_eq_refl conv),
  find_mode-without_same g.mode conv ((conv, mode) ∷ without conv g.overrides),
  rw (differs, find_mode) (find_mode-without_other g.mode conv other g.overrides ne),
  find_mode-without_other g.mode conv other g.overrides ne,
)
  where
    differs : bytes_eq conv other ≡ false
    differs = ground (arith, bytes_eq_iff conv other)

module _ (g : Gate) (os : List (Bytes × Mode)) where
  act_on_overrides :
      (m : Mode) (ts : List PatternType) → act_on record g { overrides = os } m ts ≡ act_on g m ts
  unfolding act_on
  act_on_overrides strict ts = refl
  act_on_overrides warn ts = refl
  act_on_overrides permissive ts = refl
  act_on_overrides disabled ts = refl
  act_on_overrides (unknown x) ts = refl

  on_detections_overrides :
      (m : Mode) (ds : List Detection)
      → on_detections record g { overrides = os } m ds ≡ on_detections g m ds
  unfolding on_detections
  on_detections_overrides m [] = refl
  on_detections_overrides m (d ∷ ds) = act_on_overrides m (pattern_types (d ∷ ds))

  check_in_mode_overrides :
      (spans : Regexp) (m : Mode) (msgs : List Message)
      → check_in_mode spans record g { overrides = os } m msgs ≡ check_in_mode spans g m msgs
  unfolding check_in_mode
  check_in_mode_overrides spans disabled msgs = refl
  check_in_mode_overrides spans strict msgs = on_detections_overrides strict (scan spans msgs)
  check_in_mode_overrides spans warn msgs = on_detections_overrides warn (scan spans msgs)
  check_in_mode_overrides spans permissive msgs =
      on_detections_overrides permissive (scan spans msgs)
  check_in_mode_overrides spans (unknown x) msgs =
      on_detections_overrides (unknown x) (scan spans msgs)

check_messages-set_conversation_override :
    (spans : Regexp) (g : Gate) (conv : Bytes) (mode : Mode) (msgs : List Message)
    → conv ≢ []
    → check_messages spans (set_conversation_override g conv mode) msgs []
      ≡ check_messages spans g msgs []
unfolding check_messages set_conversation_override
check_messages-set_conversation_override spans g conv mode msgs ne =
    ap (λ m. check_in_mode spans (set_conversation_override g conv mode) m msgs)
      (effective_mode-set_conversation_override g conv [] mode ne).2
    ∙ check_in_mode_overrides g ((conv, mode) ∷ without conv g.overrides) spans
        (effective_mode g []) msgs

-- `Chat` asks for the mode of the conversation without a name: an override of any conversation
-- with a name changes nothing in what it does.
pub chat-set_conversation_override :
    {World : Type 0} (inner : List Message → World → Outcome Bytes ChatResponse × World)
    (spans : Regexp) (g : Gate) (conv : Bytes) (mode : Mode) (msgs : List Message) (w : World)
    → conv ≢ []
    → chat inner spans (set_conversation_override g conv mode) msgs w ≡ chat inner spans g msgs w
unfolding chat
chat-set_conversation_override inner spans g conv mode msgs w ne =
    ap (λ c. (forward inner c.0 msgs w, c.1))
      (check_messages-set_conversation_override spans g conv mode msgs ne)
