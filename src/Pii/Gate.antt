-- ===== src/Pii/Gate.antt =====
-- internal/pii/gate.go: the provider that stands in front of another one and looks for PII in
-- what is sent. The inner provider is a parameter with a world of its own; the two callbacks are
-- the events they are called with.
pub mod Laws
use gogoclaw.Base.{
  ℕ, Bool, true, false, not, ◌&&◌, if◌then◌else◌, Option, none, some, List, [], ◌∷◌, ◌++◌, map,
  keep_if,
}
use gogoclaw.Base.Bytes.{Bytes, bytes, bytes_eq}
use gogoclaw.Base.Outcome.{Outcome, ok, err}
use gogoclaw.Provider.{Message, ChatResponse, assistant_role}
use gogoclaw.Pii.Classifier.{PatternType, type_name, Detection, Regexp, detect, pattern_types}

-- `Mode`; a configuration may hold any other string.
pub data Mode : Type 0 where
  strict warn permissive disabled : Mode
  unknown : Bytes → Mode

pub data Action : Type 0 where
  blocked allowed_local warned logged : Action

pub data Event : Type 0 where
  warning : List PatternType → Mode → Event
  audit : List PatternType → Mode → Action → Event

-- `has_warn` and `has_audit` say whether the callbacks are set.
pub record Gate : Type 0 where
  pub mode : Mode
  pub overrides : List (Bytes × Mode)
  pub has_warn : Bool
  pub has_audit : Bool
  pub is_local : Bool

unfoldable pub default_mode : Mode → Mode
default_mode (unknown []) = disabled
default_mode m = m

unfoldable pub new_gate : Mode → Bool → Bool → Bool → Gate
unfolding default_mode
new_gate mode local warn_fn audit_fn = record {
  mode = default_mode mode;
  overrides = [];
  has_warn = warn_fn;
  has_audit = audit_fn;
  is_local = local;
}

unfoldable pub without : Bytes → List (Bytes × Mode) → List (Bytes × Mode)
without conv [] = []
without conv ((c, m) ∷ os) =
    let rest = without conv os in if bytes_eq c conv then rest else (c, m) ∷ rest

unfoldable pub set_conversation_override : Gate → Bytes → Mode → Gate
unfolding without
set_conversation_override g conv mode = record g {
  overrides = (conv, mode) ∷ without conv g.overrides;
}

unfoldable pub clear_conversation_override : Gate → Bytes → Gate
unfolding without
clear_conversation_override g conv = record g { overrides = without conv g.overrides }

unfoldable pub find_mode : Bytes → Mode → List (Bytes × Mode) → Mode
find_mode conv base [] = base
find_mode conv base ((c, m) ∷ rest) = if bytes_eq c conv then m else find_mode conv base rest

unfoldable pub effective_mode : Gate → Bytes → Mode
unfolding find_mode
effective_mode g conv = find_mode conv g.mode g.overrides

-- `strings.Join(patterns, ", ")`
unfoldable pub join_types : List PatternType → Bytes
join_types [] = []
join_types (t ∷ []) = type_name t
join_types (t ∷ u ∷ ts) = type_name t ++ bytes ", " ++ join_types (u ∷ ts)

-- The three bytes are the dash of the source's text.
unfoldable pub block_text : List PatternType → Bytes
unfolding join_types
block_text ts =
    bytes "[PII BLOCKED] Detected sensitive data ("
    ++ join_types ts
    ++ bytes ") "
    ++ (226 ∷ 128 ∷ 148 ∷ [])
    ++ bytes " request blocked from cloud provider. Use a local provider or adjust PII mode."

unfoldable pub is_assistant : Message → Bool
is_assistant m = bytes_eq m.role assistant_role

abbrev when : Bool → Event → List Event
when true e = e ∷ []
when false e = []

module _ (spans : Regexp) where
  -- The detections of the messages that are not the assistant's.
  unfoldable pub scan : List Message → List Detection
  unfolding is_assistant
  scan [] = []
  scan (m ∷ ms) = elim (is_assistant m) [
    | true ↦ scan ms
    | false ↦ detect spans m.content ++ scan ms
  ]

-- The `switch`: the error, and the callbacks in their order.
unfoldable pub act_on : Gate → Mode → List PatternType → Option Bytes × List Event
unfolding block_text
act_on g strict ts = elim g.is_local [
  | true ↦ (
    none,
    when g.has_audit (audit ts strict blocked) ++ when g.has_audit (audit ts strict allowed_local),
  )
  | false ↦ (some (block_text ts), when g.has_audit (audit ts strict blocked))
]
act_on g warn ts =
    (none, when g.has_warn (warning ts warn) ++ when g.has_audit (audit ts warn warned))
act_on g permissive ts = (none, when g.has_audit (audit ts permissive logged))
act_on g m ts = (none, [])

unfoldable pub on_detections : Gate → Mode → List Detection → Option Bytes × List Event
unfolding act_on
on_detections g mode [] = (none, [])
on_detections g mode (d ∷ ds) = act_on g mode (pattern_types (d ∷ ds))

unfoldable pub check_in_mode : Regexp → Gate → Mode → List Message → Option Bytes × List Event
unfolding scan on_detections
check_in_mode spans g disabled msgs = (none, [])
check_in_mode spans g m msgs = on_detections g m (scan spans msgs)

unfoldable pub check_messages : Regexp → Gate → List Message → Bytes → Option Bytes × List Event
unfolding check_in_mode effective_mode
check_messages spans g msgs conv = check_in_mode spans g (effective_mode g conv) msgs

module _ {World : Type 0} (inner : List Message → World → Outcome Bytes ChatResponse × World) where
  unfoldable pub forward : Option Bytes → List Message → World → Outcome Bytes ChatResponse × World
  forward (some text) msgs w = (ok record { content = text; tool_calls = [] }, w)
  forward none msgs w = inner msgs w

  -- The answer, the inner provider's world after it, and the callbacks.
  unfoldable pub chat :
      Regexp → Gate → List Message → World → (Outcome Bytes ChatResponse × World) × List Event
  unfolding check_messages forward
  chat spans g msgs w =
      let (block, events) = check_messages spans g msgs [] in (forward block msgs w, events)
