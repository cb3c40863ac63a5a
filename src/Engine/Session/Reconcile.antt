-- ===== src/Engine/Session/Reconcile.antt =====
-- What `reconcileHistory` keeps of a session.
use gogoclaw.Base.{◌<◌, ◌≡◌, arith, some, List, ◌++◌, length, length-append, drop-length-append}
use gogoclaw.Provider.{Message}
use gogoclaw.Engine.Session.{Session, PendingSummary, reconcile_history}

-- If the history is the snapshot with some messages appended, those messages stay behind what the
-- summary kept.
pub reconcile_history-append :
    (s : Session) (snapshot added remaining : List Message)
    → s.history ≡ snapshot ++ added
    → (reconcile_history s
        (record { remaining_history = some remaining; snapshot_len = length snapshot })).history
      ≡ remaining ++ added
unfolding reconcile_history
reconcile_history-append s snapshot added remaining e =
    ground (arith, length-append snapshot added, drop-length-append snapshot added)

-- A summary of a snapshot longer than the history changes nothing.
pub reconcile_history_discarded :
    (s : Session) (p : PendingSummary)
    → length s.history < p.snapshot_len
    → reconcile_history s p ≡ s
unfolding reconcile_history
reconcile_history_discarded s p h = ground arith
