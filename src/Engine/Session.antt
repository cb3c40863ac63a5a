-- ===== src/Engine/Session.antt =====
-- internal/engine/session.go, and the part of engine.go that merges a finished summary into a
-- session. A Go channel of capacity 1 is an `Option`; a nil channel and an empty one are read alike.
pub mod Reconcile
pub mod Summary
use gogoclaw.Base.{
  ℕ, ltb, if◌then◌else◌, Bool, true, false, Option, none, some, List, [], ◌∷◌, ◌++◌, length, drop,
}
use gogoclaw.Base.Bytes.{Bytes}
use gogoclaw.Provider.{Message}

-- `Result` and its `RemainingHistory` are nil or not; the summary's text and facts are not read
-- here. `SnapshotLen` is a length and so never below 0.
pub record PendingSummary : Type 0 where
  pub remaining_history : Option (List Message)
  pub snapshot_len : ℕ

-- `none` in the channel's cell stands for a nil pointer or a nil `Result`.
pub record Session : Type 0 where
  pub conversation_id : Bytes
  pub channel : Bytes
  pub agent_profile : Bytes
  pub history : List Message
  pub summarizing : Bool
  pub pending_summary : Option (Option PendingSummary)

unfoldable pub append_message : Session → Message → Session
append_message s m = record s { history = s.history ++ (m ∷ []) }

unfoldable pub set_history : Session → List Message → Session
set_history s history = record s { history = history }

unfoldable pub clear_history : Session → Session
clear_history s = record s { history = [] }

unfoldable pub reconcile_history : Session → PendingSummary → Session
reconcile_history s p =
    if ltb (length s.history) p.snapshot_len then s else elim p.remaining_history [
      | none ↦ s
      | some remaining ↦ record s { history = remaining ++ drop p.snapshot_len s.history }
    ]

unfoldable pub apply_pending_summary : Session → Session
unfolding reconcile_history
apply_pending_summary s = elim s.pending_summary [
  | none ↦ s
  | some cell ↦ elim cell [
    | none ↦ record s { pending_summary = none }
    | some p ↦ reconcile_history (record s { pending_summary = none }) p
  ]
]

-- The compare-and-swap and the snapshot. The second part is what the new goroutine works on.
unfoldable pub maybe_start_summarization : Session → Session × Option (List Message)
maybe_start_summarization s =
    if s.summarizing then (s, none) else (record s { summarizing = true }, some s.history)

-- The goroutine's send: a cell that is full is drained first, so the newer result stays.
unfoldable pub deliver_summary : Session → Option (List Message) → ℕ → Session
deliver_summary s remaining snapshot_len = record s {
  pending_summary =
      some (some (record { remaining_history = remaining; snapshot_len = snapshot_len }));
}

-- The deferred store when the goroutine ends.
unfoldable pub finish_summarization : Session → Session
finish_summarization s = record s { summarizing = false }
