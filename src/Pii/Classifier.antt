-- ===== src/Pii/Classifier.antt =====
-- internal/pii/classifier.go: which patterns a text contains. The engine of `regexp` is the
-- parameter `spans`: the places of an expression's first group in a text, from left to right.
pub mod Laws
use gogoclaw.Base.{
  ℕ, ◌-◌, Bool, true, false, not, ◌||◌, if◌then◌else◌, List, [], ◌∷◌, ◌++◌, take, drop, any_of,
}
use gogoclaw.Base.Bytes.{Bytes, bytes}
use gogoclaw.Pii.Luhn.{verify_ssn, verify_credit_card}

pub data PatternType : Type 0 where
  ssn phone email credit_card account api_key bearer aws_key : PatternType

abbrev pub type_name : PatternType → Bytes
type_name ssn = bytes "ssn"
type_name phone = bytes "phone"
type_name email = bytes "email"
type_name credit_card = bytes "credit_card"
type_name account = bytes "account_number"
type_name api_key = bytes "api_key"
type_name bearer = bytes "bearer_token"
type_name aws_key = bytes "aws_key"

-- The expressions of `NewClassifier`, in order.
pub data Pattern : Type 0 where
  ssn_dashed ssn_digits phone_number email_address card_number account_number sk_key bearer_token
        akia_key ghp_token :
      Pattern

abbrev pub patterns : List Pattern
patterns =
    ssn_dashed ∷ ssn_digits ∷ phone_number ∷ email_address ∷ card_number ∷ account_number ∷ sk_key
    ∷ bearer_token ∷ akia_key ∷ ghp_token ∷ []

abbrev pub type_of : Pattern → PatternType
type_of ssn_dashed = ssn
type_of ssn_digits = ssn
type_of phone_number = phone
type_of email_address = email
type_of card_number = credit_card
type_of account_number = account
type_of sk_key = api_key
type_of bearer_token = bearer
type_of akia_key = aws_key
type_of ghp_token = api_key

-- `p.verify == nil || p.verify(match)`
unfoldable pub verifies : Pattern → Bytes → Bool
unfolding verify_ssn verify_credit_card
verifies ssn_digits s = verify_ssn s
verifies card_number s = verify_credit_card s
verifies _ s = true

pub record Detection : Type 0 where
  pub type : PatternType
  pub matched : Bytes
  pub start : ℕ
  pub end : ℕ

-- `text[lo:hi]`
abbrev pub slice : Bytes → ℕ → ℕ → Bytes
slice text lo hi = take (hi - lo) (drop lo text)

abbrev pub Regexp : Type 0
Regexp = Pattern → Bytes → List (ℕ × ℕ)

module _ (spans : Regexp) (text : Bytes) where
  detect_spans : Pattern → List (ℕ × ℕ) → List Detection
  unfolding verifies
  detect_spans p [] = []
  detect_spans p ((lo, hi) ∷ rest) = elim (verifies p (slice text lo hi)) [
    | true ↦
        record { type = type_of p; matched = slice text lo hi; start = lo; end = hi }
        ∷ detect_spans p rest
    | false ↦ detect_spans p rest
  ]

  detect_all : List Pattern → List Detection
  unfolding detect_spans
  detect_all [] = []
  detect_all (p ∷ ps) = detect_spans p (spans p text) ++ detect_all ps

  unfoldable pub detect : List Detection
  unfolding detect_all
  detect = detect_all patterns

  -- Only the first match of each expression is looked at.
  first_verifies : Pattern → List (ℕ × ℕ) → Bool
  unfolding verifies
  first_verifies p [] = false
  first_verifies p ((lo, hi) ∷ rest) = verifies p (slice text lo hi)

  unfoldable pub has_pii : Bool
  unfolding first_verifies
  has_pii = any_of (λ p. first_verifies p (spans p text)) patterns

pub PatternType-discrete : Discrete PatternType
PatternType-discrete = hlevel

-- `seen[d.Type]`
unfoldable pub seen_type : PatternType → List PatternType → Bool
seen_type t [] = false
seen_type t (u ∷ us) = elim (PatternType-discrete t u) [ yes e ↦ true | no e ↦ seen_type t us ]

collect_types : List PatternType → List Detection → List PatternType
unfolding seen_type
collect_types seen [] = []
collect_types seen (d ∷ ds) = elim (seen_type d.type seen) [
  | true ↦ collect_types seen ds
  | false ↦ d.type ∷ collect_types (d.type ∷ seen) ds
]

-- The names are taken by `type_name` where they are printed.
unfoldable pub pattern_types : List Detection → List PatternType
unfolding collect_types
pattern_types = collect_types []
