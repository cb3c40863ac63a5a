-- ===== src/Pii/Tests.antt =====
-- The classifier and the gate on concrete texts. `scripted` stands for `regexp`: it finds one
-- place of nine digits in every text of nine bytes or more.
use gogoclaw.Base.{
  ℕ, ltb, ◌≡◌, ◌≢◌, ◌⊎◌, ◌↔◌, refl, inl, inr, arith, Bool, true, false, if◌then◌else◌, ◌+◌, List,
  [], ◌∷◌, ◌++◌, map, length, Option,
}
use gogoclaw.Base.Bytes.{Bytes, bytes}
use gogoclaw.Base.Outcome.{Outcome, ok}
use gogoclaw.Provider.{Message, ChatResponse, plain_message, user_role}
use gogoclaw.Pii.Luhn.{luhn_valid}
use gogoclaw.Pii.Luhn.Laws.{luhn_valid_altered}
use gogoclaw.Pii.Classifier.{
  ssn_digits, PatternType, ssn, Detection, Regexp, detect, has_pii, pattern_types,
}
use gogoclaw.Pii.Classifier.Laws.{IsIn, Distinct, pattern_types_lem, has_pii-detect}
use gogoclaw.Pii.Gate.{
  strict, warn, disabled, Gate, block_text, scan, chat, effective_mode, set_conversation_override,
  clear_conversation_override,
}
use gogoclaw.Pii.Gate.Laws.{
  IsBlocked, chat_lem, effective_mode-set_conversation_override, chat-set_conversation_override,
}

abbrev head : Bytes
head = bytes "411111111111111"

card_valid : luhn_valid (head ++ (b'1' ∷ [])) ≡ true
unfolding luhn_valid
card_valid = refl

luhn_valid_altered_example : luhn_valid (head ++ (b'7' ∷ [])) ≡ false
luhn_valid_altered_example = luhn_valid_altered head [] b'1' b'7' refl refl (omega arith) card_valid

abbrev scripted : Regexp
scripted ssn_digits text = if ltb (length text) 9 then [] else (0, 9) ∷ []
scripted _ text = []

abbrev secret : Bytes
secret = bytes "123456789 is mine"

abbrev found : Detection
found = record { type = ssn; matched = bytes "123456789"; start = 0; end = 9 }

detect_sample : detect scripted secret ≡ found ∷ []
unfolding detect
detect_sample = refl

pattern_types_example :
    Distinct (pattern_types (found ∷ found ∷ []))
    × ((t : PatternType)
        → IsIn t (pattern_types (found ∷ found ∷ []))
          ↔ IsIn t (map (λ d. d.type) (found ∷ found ∷ [])))
pattern_types_example = pattern_types_lem (found ∷ found ∷ [])

secret_found : has_pii scripted secret ≡ true
unfolding has_pii
secret_found = refl

has_pii-detect_example : detect scripted secret ≢ []
has_pii-detect_example = has_pii-detect scripted secret secret_found

-- A provider that counts its calls.
abbrev counting : List Message → ℕ → Outcome Bytes ChatResponse × ℕ
counting msgs w = (ok record { content = bytes "hello"; tool_calls = [] }, w + 1)

abbrev gate : Gate
gate = record { mode = strict; overrides = []; has_warn = true; has_audit = true; is_local = false }

abbrev talk : List Message
talk = plain_message user_role secret ∷ []

chat_example :
    (IsBlocked scripted gate talk
      → (chat counting scripted gate talk 0).0 ≡ (
        ok record { content = block_text (pattern_types (scan scripted talk)); tool_calls = [] },
        0,
      ))
    × (¬ IsBlocked scripted gate talk → (chat counting scripted gate talk 0).0 ≡ counting talk 0)
chat_example = chat_lem counting scripted gate talk 0

chat_sample :
    (chat counting scripted gate talk 0).0
    ≡ (ok record { content = block_text (ssn ∷ []); tool_calls = [] }, 0)
unfolding chat gogoclaw.Base.Bytes.bytes_eq detect pattern_types
chat_sample = refl

effective_mode-set_conversation_override_example :
    (effective_mode (set_conversation_override gate (bytes "a") warn) (bytes "a") ≡ warn)
    × (effective_mode
          (clear_conversation_override
            (set_conversation_override gate (bytes "a") warn)
            (bytes "a"))
          (bytes "a")
        ≡ strict)
    × (effective_mode (set_conversation_override gate (bytes "a") warn) [] ≡ effective_mode gate [])
    × (effective_mode (clear_conversation_override gate (bytes "a")) [] ≡ effective_mode gate [])
effective_mode-set_conversation_override_example =
    effective_mode-set_conversation_override gate (bytes "a") [] warn (λ e. cc)

chat-set_conversation_override_example :
    chat counting scripted (set_conversation_override gate (bytes "a") disabled) talk 0
    ≡ chat counting scripted gate talk 0
chat-set_conversation_override_example =
    chat-set_conversation_override counting scripted gate (bytes "a") disabled talk 0 (λ e. cc)
