-- ===== src/Engine/Session/Summary/Stale.antt =====
-- A summary that is applied while the next one is being computed makes that next one stale.
use mathlib.Core.List.{append_assoc, append-nil}
use gogoclaw.Base.{
  zero, suc, drop-length-append, ℕ, ◌+◌, ◌-◌, ◌≤◌, ◌≡◌, refl, sym, ap, ◌∙◌, arith, none, some, true,
  false, List, [], ◌∷◌, ◌++◌, map, length, length-append, drop,
}
use gogoclaw.Provider.{Message}
use gogoclaw.Engine.Session.{Session, reconcile_history}
use gogoclaw.Engine.Session.Summary.{Run, Action, say, apply, start, deliver, finish, step, run}

-- A turn that begins while the second summarization runs: the first summary was delivered after
-- the turn before it began, so it is applied under the feet of the second one.
abbrev pub overlapping :
    List Message → List Message → List Message → List Message → List Message → List Action
overlapping old middle late first second =
    map say old
    ++ (start
        ∷ (map say middle
            ++ (deliver first
                ∷ finish
                ∷ start
                ∷ apply
                ∷ (map say late ++ (deliver second ∷ finish ∷ apply ∷ [])))))

drop-past {ℓ} :
    {A : Type ℓ} (xs ys : List A) (k n : ℕ) → k ≡ length xs + n → drop k (xs ++ ys) ≡ drop n ys
drop-past [] ys k n e = ap (λ j. drop j ys) (omega arith)
drop-past (x ∷ xs) ys zero n e = absurd (omega arith)
drop-past (x ∷ xs) ys (suc k) n e = drop-past xs ys k n (omega arith)

abbrev says : Run → List Message → Run
says r ms = record r { session = record r.session { history = r.session.history ++ ms } }

run-says :
    (ms : List Message) (more : List Action) (r : Run)
    → run (map say ms ++ more) r ≡ run more (says r ms)
unfolding run
run-says [] more r =
    ap (λ h. run more (record r { session = record r.session { history = h } }))
      (sym (append-nil r.session.history))
run-says (m ∷ ms) more r =
    run-says ms more (step (say m) r)
    ∙ ap (λ h. run more (record r { session = record r.session { history = h } }))
        (append_assoc r.session.history (m ∷ []) ms)

abbrev pub opened : Session → Run
opened s = record {
  session = record s { history = []; summarizing = false; pending_summary = none };
  worker = none;
}

abbrev working : Session → List Message → List Message → Run
working s history snapshot = record {
  session = record s { history = history; summarizing = true; pending_summary = none };
  worker = some snapshot;
}

started_run :
    (s : Session) (old : List Message) (more : List Action)
    → run (start ∷ more) (says (opened s) old) ≡ run more (working s old old)
unfolding run
started_run s old more = refl

first_applied :
    (s : Session) (old middle first : List Message) (more : List Action)
    → run (deliver first ∷ finish ∷ start ∷ apply ∷ more) (working s (old ++ middle) old)
      ≡ run more (working s (first ++ middle) (old ++ middle))
unfolding run reconcile_history
first_applied s old middle first more =
    ap (run more) (ground (arith, length-append old middle, drop-length-append old middle))

second_applied :
    (s : Session) (front late snapshot second : List Message) (n : ℕ)
    → length snapshot ≡ length front + n
    → n ≤ length late
    → (run
        (deliver second ∷ finish ∷ apply ∷ [])
        (working s (front ++ late) snapshot)).session.history
      ≡ second ++ drop n late
unfolding run reconcile_history
second_applied s front late snapshot second n e h =
    ground (arith, length-append front late, drop-past front late (length snapshot) n)

-- In the overlapping schedule the second summary stands for `old ++ middle`, but when it is
-- applied its length is counted in a history that the first summary has shortened: of what was
-- said after it started, the first `length old - length first` messages are lost, if `first` is
-- no longer than `old` and so many were said.
pub run-overlapping :
    (s : Session) (old middle late first second : List Message)
    → length first ≤ length old
    → length old ≤ length first + length late
    → (run (overlapping old middle late first second) (opened s)).session.history
      ≡ second ++ drop (length old - length first) late
run-overlapping s old middle late first second h k =
    let end = deliver second ∷ finish ∷ apply ∷ [] in
    let tail = map say late ++ end in
    let history = λ (r : Run). r.session.history in
    ap history (
      run-says old (start ∷ (map say middle ++ (deliver first ∷ finish ∷ start ∷ apply ∷ tail)))
        (opened s)
      ∙ started_run s old (map say middle ++ (deliver first ∷ finish ∷ start ∷ apply ∷ tail))
      ∙ run-says middle (deliver first ∷ finish ∷ start ∷ apply ∷ tail) (working s old old)
      ∙ first_applied s old middle first tail
      ∙ run-says late end (working s (first ++ middle) (old ++ middle)))
    ∙ second_applied s (first ++ middle) late (old ++ middle) second (length old - length first)
        (omega (arith, length-append old middle, length-append first middle)) (omega arith)
