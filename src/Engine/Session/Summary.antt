-- ===== src/Engine/Session/Summary.antt =====
-- Turns of one session beside its summarization goroutine: the interleavings of
-- internal/engine/engine.go's `applyPendingSummary`, `maybeStartSummarization` and the goroutine
-- that it starts. `worker` is the snapshot that a running goroutine still has to deliver.
pub mod Safety
pub mod Stale
use gogoclaw.Base.{ℕ, Bool, true, false, Option, none, some, List, [], ◌∷◌, ◌++◌, map, length}
use gogoclaw.Provider.{Message}
use gogoclaw.Engine.Session.{
  Session, PendingSummary, append_message, apply_pending_summary, maybe_start_summarization,
  deliver_summary, finish_summarization,
}

pub record Run : Type 0 where
  pub session : Session
  pub worker : Option (List Message)

-- `deliver` is the goroutine's send of a result with the history that the summary kept, and
-- `finish` its end, also without a result.
pub data Action : Type 0 where
  say : Message → Action
  apply start finish : Action
  deliver : List Message → Action

abbrev started : Option (List Message) → Option (List Message) → Option (List Message)
started (some snapshot) worker = some snapshot
started none worker = worker

unfoldable pub step : Action → Run → Run
unfolding append_message apply_pending_summary maybe_start_summarization deliver_summary
    finish_summarization
step (say m) r = record r { session = append_message r.session m }
step apply r = record r { session = apply_pending_summary r.session }
step start r =
    let (session, snapshot) = maybe_start_summarization r.session in
    record { session = session; worker = started snapshot r.worker }
step (deliver remaining) r = elim r.worker [
  | none ↦ r
  | some snapshot ↦ record {
    session = deliver_summary r.session (some remaining) (length snapshot);
    worker = none;
  }
]
step finish r = record { session = finish_summarization r.session; worker = none }

unfoldable pub run : List Action → Run → Run
unfolding step
run [] r = r
run (a ∷ more) r = run more (step a r)
