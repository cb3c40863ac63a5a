-- ===== src/Engine/Session/Summary/Safety.antt =====
-- A schedule that never applies a summary while the next one is computed loses no message.
use mathlib.Core.List.{append_assoc, append-nil}
use gogoclaw.Base.{
  ◌≡◌, refl, sym, ap, ◌∙◌, arith, Bool, true, false, Option, none, some, List, [], ◌∷◌, ◌++◌,
  length, if◌then◌else◌, ◌⊎◌, inl, inr,
}
use gogoclaw.Provider.{Message}
use gogoclaw.Engine.Session.{
  Session, PendingSummary, apply_pending_summary, reconcile_history, maybe_start_summarization,
  deliver_summary, finish_summarization, append_message,
}
use gogoclaw.Engine.Session.Reconcile.{reconcile_history-append}
use gogoclaw.Engine.Session.Summary.{Run, Action, say, apply, start, deliver, finish, started, step}

-- A run with two ghost lists: what was said since the running goroutine's snapshot, and since the
-- snapshot of the summary that waits in the channel.
pub record Watch : Type 0 where
  pub now : Run
  pub since : List Message
  pub behind : List Message

abbrev restarted : Bool → List Message → List Message
restarted true since = since
restarted false since = []

abbrev handed_over : Option (List Message) → List Message → List Message → List Message
handed_over none since behind = behind
handed_over (some snapshot) since behind = since

unfoldable pub watch_step : Action → Watch → Watch
unfolding step
watch_step (say m) w = record {
  now = step (say m) w.now;
  since = w.since ++ (m ∷ []);
  behind = w.behind ++ (m ∷ []);
}
watch_step apply w = record w { now = step apply w.now }
watch_step start w = record w {
  now = step start w.now;
  since = restarted w.now.session.summarizing w.since;
}
watch_step (deliver remaining) w = record w {
  now = step (deliver remaining) w.now;
  behind = handed_over w.now.worker w.since w.behind;
}
watch_step finish w = record w { now = step finish w.now }

unfoldable pub watch : List Action → Watch → Watch
unfolding watch_step
watch [] w = w
watch (a ∷ more) w = watch more (watch_step a w)

-- A turn begins with no goroutine at work or with no summary waiting.
abbrev pub IsCalmAt : Action → Run → Type 0
IsCalmAt apply r = (r.worker ≡ none) ⊎ (r.session.pending_summary ≡ none)
IsCalmAt _ r = Unit {0}

abbrev pub IsCalm : List Action → Run → Type 0
IsCalm [] r = Unit {0}
IsCalm (a ∷ more) r = IsCalmAt a r × IsCalm more (step a r)

abbrev WorkerFits : Option (List Message) → List Message → List Message → Type 0
WorkerFits none history since = Unit {0}
WorkerFits (some snapshot) history since = history ≡ snapshot ++ since

abbrev CellFits : Option (Option PendingSummary) → List Message → List Message → Type 0
CellFits (some (some p)) history behind =
    (front : List Message) × (history ≡ front ++ behind) × (length front ≡ p.snapshot_len)
CellFits _ history behind = Unit {0}

pub record IsLossless (w : Watch) : Type 0 where
  pub worker_fits : WorkerFits w.now.worker w.now.session.history w.since
  pub cell_fits : CellFits w.now.session.pending_summary w.now.session.history w.behind

append-CellFits :
    (cell : Option (Option PendingSummary)) (history behind : List Message) (m : Message)
    → CellFits cell history behind
    → CellFits cell (history ++ (m ∷ [])) (behind ++ (m ∷ []))
append-CellFits none history behind m f = tt
append-CellFits (some none) history behind m f = tt
append-CellFits (some (some p)) history behind m (front, e, len) =
    (front, ap (λ h. h ++ (m ∷ [])) e ∙ append_assoc front behind (m ∷ []), len)

append-WorkerFits :
    (worker : Option (List Message)) (history since : List Message) (m : Message)
    → WorkerFits worker history since
    → WorkerFits worker (history ++ (m ∷ [])) (since ++ (m ∷ []))
append-WorkerFits none history since m f = tt
append-WorkerFits (some snapshot) history since m f =
    ap (λ h. h ++ (m ∷ [])) f ∙ append_assoc snapshot since (m ∷ [])

start-WorkerFits :
    (busy : Bool) (worker : Option (List Message)) (history since : List Message)
    → WorkerFits worker history since
    → WorkerFits
        (started (if busy then none else some history) worker)
        history
        (restarted busy since)
start-WorkerFits true worker history since f = f
start-WorkerFits false worker history since f = sym (append-nil history)

-- What `apply` leaves: nothing is waiting, and a summary that fits has taken the place of its
-- snapshot, with all that was said since behind it.
apply-history :
    (s : Session) (p : PendingSummary) (behind remaining : List Message)
    → s.pending_summary ≡ some (some p)
    → p.remaining_history ≡ some remaining
    → CellFits (some (some p)) s.history behind
    → (apply_pending_summary s).history ≡ remaining ++ behind
unfolding apply_pending_summary reconcile_history
apply-history s p behind remaining here kept (front, e, len) =
    ground (
      arith,
      reconcile_history-append (record s { pending_summary = none }) front behind remaining e,
    )

apply-pending_summary : (s : Session) → (apply_pending_summary s).pending_summary ≡ none
unfolding apply_pending_summary
apply-pending_summary s = ground arith

apply_idle : (s : Session) → s.pending_summary ≡ none → apply_pending_summary s ≡ s
unfolding apply_pending_summary
apply_idle s e = ground arith

start-history : (s : Session) → (maybe_start_summarization s).0.history ≡ s.history
unfolding maybe_start_summarization
start-history s = ground arith

start-pending_summary :
    (s : Session) → (maybe_start_summarization s).0.pending_summary ≡ s.pending_summary
unfolding maybe_start_summarization
start-pending_summary s = ground arith

start-snapshot :
    (s : Session)
    → (maybe_start_summarization s).1 ≡ (if s.summarizing then none else some s.history)
unfolding maybe_start_summarization
start-snapshot s = ground arith

deliver_from :
    (s : Session) (worker : Option (List Message)) (since behind remaining : List Message)
    → WorkerFits worker s.history since
    → CellFits s.pending_summary s.history behind
    → IsLossless (
        watch_step (deliver remaining) (record {
          now = record { session = s; worker = worker };
          since = since;
          behind = behind;
        }))
unfolding watch_step deliver_summary
deliver_from s none since behind remaining f c = record { worker_fits = tt; cell_fits = c }
deliver_from s (some snapshot) since behind remaining f c = record {
  worker_fits = tt;
  cell_fits = (snapshot, f, refl);
}

module _ (w : Watch) (v : IsLossless w) where
  say-IsLossless : (m : Message) → IsLossless (watch_step (say m) w)
  unfolding watch_step append_message
  say-IsLossless m = record {
    worker_fits = append-WorkerFits w.now.worker w.now.session.history w.since m v.worker_fits;
    cell_fits =
        append-CellFits w.now.session.pending_summary w.now.session.history w.behind m v.cell_fits;
  }

  start-IsLossless : IsLossless (watch_step start w)
  unfolding watch_step
  start-IsLossless = record {
    worker_fits =
        rw (start-history w.now.session, start-snapshot w.now.session)
          (start-WorkerFits w.now.session.summarizing w.now.worker w.now.session.history w.since
            v.worker_fits);
    cell_fits = rw (start-history w.now.session, start-pending_summary w.now.session) v.cell_fits;
  }

  deliver-IsLossless : (remaining : List Message) → IsLossless (watch_step (deliver remaining) w)
  deliver-IsLossless remaining =
      deliver_from w.now.session w.now.worker w.since w.behind remaining v.worker_fits v.cell_fits

  finish-IsLossless : IsLossless (watch_step finish w)
  unfolding watch_step finish_summarization
  finish-IsLossless = record { worker_fits = tt; cell_fits = v.cell_fits }

  apply-IsLossless : IsCalmAt apply w.now → IsLossless (watch_step apply w)
  unfolding watch_step
  apply-IsLossless (inl idle) = record {
    worker_fits = rw idle tt;
    cell_fits = rw (apply-pending_summary w.now.session) tt;
  }
  apply-IsLossless (inr empty) = rw (apply_idle w.now.session empty) v

-- Every action of a calm schedule keeps the two snapshots in front of the history.
watch_step-IsLossless :
    (a : Action) (w : Watch) → IsCalmAt a w.now → IsLossless w → IsLossless (watch_step a w)
watch_step-IsLossless (say m) w calm v = say-IsLossless w v m
watch_step-IsLossless apply w calm v = apply-IsLossless w v calm
watch_step-IsLossless start w calm v = start-IsLossless w v
watch_step-IsLossless finish w calm v = finish-IsLossless w v
watch_step-IsLossless (deliver remaining) w calm v = deliver-IsLossless w v remaining

now-watch_step : (a : Action) (w : Watch) → (watch_step a w).now ≡ step a w.now
unfolding watch_step
now-watch_step (say m) w = refl
now-watch_step apply w = refl
now-watch_step start w = refl
now-watch_step finish w = refl
now-watch_step (deliver remaining) w = refl

watch-IsLossless :
    (actions : List Action) (w : Watch)
    → IsCalm actions w.now
    → IsLossless w
    → IsLossless (watch actions w)
unfolding watch
watch-IsLossless [] w calm v = v
watch-IsLossless (a ∷ more) w (calm, rest) v =
    watch-IsLossless more (watch_step a w) (rw (now-watch_step a w) rest)
      (watch_step-IsLossless a w calm v)

-- A session as it is created, with nothing said and no summarization.
abbrev pub fresh : Session → Watch
fresh s = record {
  now = record {
    session = record s { summarizing = false; pending_summary = none };
    worker = none;
  };
  since = [];
  behind = [];
}

-- Under a calm schedule no message is lost: when a waiting summary that has kept a history is
-- applied, the session's history is what it kept, with every message behind it that was said since
-- the summarizer's snapshot.
pub apply_lossless :
    (actions : List Action) (s : Session) (p : PendingSummary) (remaining : List Message)
    → IsCalm actions (fresh s).now
    → let w = watch actions (fresh s) in
      w.now.session.pending_summary ≡ some (some p)
      → p.remaining_history ≡ some remaining
      → (apply_pending_summary w.now.session).history ≡ remaining ++ w.behind
apply_lossless actions s p remaining calm waiting kept =
    let w = watch actions (fresh s) in
    let v = watch-IsLossless actions (fresh s) calm (record { worker_fits = tt; cell_fits = tt }) in
    apply-history w.now.session p w.behind remaining waiting kept (rw waiting at v.cell_fits)
