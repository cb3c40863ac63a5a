-- ===== src/Storage/Rotation/Audit/Laws.antt =====
-- The audit log after its rotation, and after a second one.
use gogoclaw.Base.{
  ℕ, suc, ◌<◌, ◌+◌, ◌≡◌, ◌≢◌, refl, ◌∙◌, inl, inr, arith, true, false, Option, none, some, List, [],
  ◌∷◌, ◌++◌, Bool-cases, drop,
}
use gogoclaw.Base.Bytes.{Bytes, bytes_eq, has_prefix, append-has_prefix, trim_space}
use gogoclaw.Base.Outcome.{ok, Outcome-cases}
use gogoclaw.Storage.Encryption.{Crypto, IsSound}
use gogoclaw.Storage.Messages.{open_text, seal_text}
use gogoclaw.Storage.Rotation.Statements.{RotateResult}
use gogoclaw.Storage.Rotation.Pages.{RotateError}
use gogoclaw.Storage.Rotation.Sealing.{IsDrawn, IsSeparate, seal_text-open_text}
use gogoclaw.Storage.Rotation.Audit.{
  encrypted_prefix, blank, rotated, passed_thru, Rewritten, Output, AuditRun, add_counted,
  rotate_line, rotate_lines, rewrite_log, rotate_audit_log,
}
use gogoclaw.Storage.Rotation.Audit.Lines.{
  HasNewLine, IsNewLine, SameLine, SameLines, SameLog, counts, lines_of, not_positive,
  read_encrypted, read_line, trim_space_nonempty,
}

module _ (C : Crypto) (sound : IsSound C) (old new : Bytes) where
  sealed_line :
      (drawn : Option Bytes) (x text : Bytes)
      → IsDrawn drawn
      → seal_text C new drawn [] x ≡ ok text
      → (y : Bytes) × (bytes_eq (trim_space (encrypted_prefix ++ text)) [] ≡ false)
        × (has_prefix (encrypted_prefix ++ text) encrypted_prefix ≡ true)
        × (open_text C new [] (drop 7 (encrypted_prefix ++ text)) ≡ ok x)
  sealed_line drawn x text d t = (
    x,
    trim_space_nonempty 101 _ refl,
    append-has_prefix encrypted_prefix text,
    (seal_text-open_text C sound new drawn [] x text d t).0,
  )

  rotate_line_lem :
      (drawn : Option Bytes) (l : Bytes) (w : Rewritten)
      → IsDrawn drawn
      → rotate_line C old new drawn l ≡ ok w
      → SameLine C old new l w.line × ((w.counted ≡ rotated) → IsNewLine C old new w.line)
  unfolding rotate_line read_line
  rotate_line_lem drawn l w d h = elim (Bool-cases (bytes_eq (trim_space l) [])) [
    | inl e ↦
        let is : w ≡ record { line = l; counted = blank } = ground (arith, h, e) in
        rw is ((l, rw (e, read_line) refl, rw (e, read_line) refl), λ c. cc)
    | inr e ↦ elim (Bool-cases (has_prefix l encrypted_prefix)) [
      | inr p ↦
          let is : w ≡ record { line = l; counted = passed_thru } = ground (arith, h, e, p) in
          rw is ((l, rw (e, read_line, p) refl, rw (e, read_line, p) refl), λ c. cc)
      | inl p ↦ elim (Outcome-cases (open_text C old [] (drop 7 l))) [
        | inr (x, o) ↦ absurd (ground (arith, h, e, p, o))
        | inl (x, o) ↦ elim (Outcome-cases (seal_text C new drawn [] x)) [
          | inr (y, t) ↦ absurd (ground (arith, h, e, p, o, t))
          | inl (text, t) ↦
              let is : w ≡ record { line = encrypted_prefix ++ text; counted = rotated } =
                ground (arith, h, e, p, o, t) in
              let new_line = sealed_line drawn x text d t in
              rw is (
                (
                  x,
                  rw (e, read_line, p) o,
                  read_encrypted C new (encrypted_prefix ++ text) new_line.1 new_line.2
                      ∙ new_line.3,
                ),
                λ c. (x, new_line.1, new_line.2, new_line.3),
              )
        ]
      ]
    ]
  ]

  -- A line of the log, and the rest of it.
  rotate_lines-cons :
      (run : AuditRun) (i : ℕ) (l : Bytes) (ls : List Bytes) (o : Output)
      → rotate_lines C old new run i (l ∷ ls) ≡ ok o
      → (w : Rewritten) × (rest : Output) × (rotate_line C old new (run.draw i) l ≡ ok w)
        × (rotate_lines C old new run (suc i) ls ≡ ok rest)
        × (o ≡ add_counted w.counted w.line rest)
  unfolding rotate_lines
  rotate_lines-cons run i l ls o h = elim (Bool-cases (run.live_line i)) [
    | inr e ↦ absurd (ground (arith, h, e))
    | inl e ↦ elim (Outcome-cases (rotate_line C old new (run.draw i) l)) [
      | inr (x, f) ↦ absurd (ground (arith, h, e, f))
      | inl (w, f) ↦ elim (Bool-cases (run.written i)) [
        | inr g ↦ absurd (ground (arith, h, e, f, g))
        | inl g ↦ elim (Outcome-cases (rotate_lines C old new run (suc i) ls)) [
          | inr (x, r) ↦ absurd (ground (arith, h, e, f, g, r))
          | inl (rest, r) ↦ (w, rest, f, r, ground (arith, h, e, f, g, r))
        ]
      ]
    ]
  ]

  module _ (run : AuditRun) (draws : (i : ℕ) → IsDrawn (run.draw i)) where
    rotate_lines-SameLines :
        (i : ℕ) (ls : List Bytes) (o : Output)
        → rotate_lines C old new run i ls ≡ ok o
        → SameLines C old new ls o.lines
    unfolding rotate_lines
    rotate_lines-SameLines i [] o h =
        let e : o ≡ record { lines = []; lines_rotated = 0; lines_passed_thru = 0 } =
          ground (arith, h) in
        rw e tt
    rotate_lines-SameLines i (l ∷ ls) o h =
        let (w, rest, one, later, is) = rotate_lines-cons run i l ls o h in
        rw (is, lines_of w.counted w.line rest)
          (
            (rotate_line_lem (run.draw i) l w (draws i) one).0,
            rotate_lines-SameLines (suc i) ls rest later,
          )

    rotate_lines-HasNewLine :
        (i : ℕ) (ls : List Bytes) (o : Output)
        → rotate_lines C old new run i ls ≡ ok o
        → 0 < o.lines_rotated
        → HasNewLine C old new o.lines
    unfolding rotate_lines
    rotate_lines-HasNewLine i [] o h p =
        let e : o ≡ record { lines = []; lines_rotated = 0; lines_passed_thru = 0 } =
          ground (arith, h) in
        absurd (not_positive (rw e at p))
    rotate_lines-HasNewLine i (l ∷ ls) o h p =
        let (w, rest, one, later, is) = rotate_lines-cons run i l ls o h in
        rw (is, lines_of w.counted w.line rest)
          (elim (counts w.counted w.line rest (rw is at p)) [
            | inl e ↦ inl ((rotate_line_lem (run.draw i) l w (draws i) one).1 e)
            | inr q ↦ inr (rotate_lines-HasNewLine (suc i) ls rest later q)
          ])

  -- No run over a log with such a line succeeds, since the line is opened with the old key.
  stuck_on :
      (separate : IsSeparate C old new) (run : AuditRun) (i : ℕ) (l : Bytes) (w : Rewritten)
      → IsNewLine C old new l
      → rotate_line C old new (run.draw i) l ≢ ok w
  unfolding rotate_line
  stuck_on separate run i l w (x, e, p, opens) h =
      elim (Outcome-cases (open_text C old [] (drop 7 l))) [
        | inl (y, o) ↦ separate [] (drop 7 l) y x o opens
        | inr (y, o) ↦ ground (arith, h, e, p, o)
      ]

  rotate_lines-stuck :
      (separate : IsSeparate C old new) (run : AuditRun) (i : ℕ) (ls : List Bytes) (o : Output)
      → HasNewLine C old new ls
      → rotate_lines C old new run i ls ≢ ok o
  rotate_lines-stuck separate run i [] o n h = n
  rotate_lines-stuck separate run i (l ∷ ls) o n h =
      let (w, rest, one, later, is) = rotate_lines-cons run i l ls o h in
      elim n [
        | inl here ↦ stuck_on separate run i l w here one
        | inr there ↦ rotate_lines-stuck separate run (suc i) ls rest there later
      ]

  rewrite_log-rotate_lines :
      (run : AuditRun) (ls : List Bytes) (o : Output)
      → rewrite_log C old new run ls ≡ ok o
      → rotate_lines C old new run 0 ls ≡ ok o
  unfolding rewrite_log
  rewrite_log-rotate_lines run ls o h = elim (Outcome-cases (rotate_lines C old new run 0 ls)) [
    | inr (x, e) ↦ absurd (ground (arith, h, e))
    | inl (p, e) ↦ e ∙ ground (arith, h, e)
  ]

  -- A run that ends with no error wrote what `rotate_lines` gives.
  rotate_audit_log-ok :
      (run : AuditRun) (ls : List Bytes) (r : RotateResult)
      → (rotate_audit_log C old new run (some ls) r).error ≡ none
      → (o : Output) × (rotate_lines C old new run 0 ls ≡ ok o)
        × ((rotate_audit_log C old new run (some ls) r).audit ≡ some o.lines)
        × ((rotate_audit_log C old new run (some ls) r).result.audit_lines_rotated
            ≡ r.audit_lines_rotated + o.lines_rotated)
  unfolding rotate_audit_log
  rotate_audit_log-ok run ls r h = elim (Outcome-cases (rewrite_log C old new run ls)) [
    | inr (x, e) ↦ absurd (ground (arith, h, e))
    | inl (o, e) ↦ (o, rewrite_log-rotate_lines run ls o e, ground (arith, e), ground (arith, e))
  ]

  pub rotate_audit_log-SameLog :
      (run : AuditRun)
      → ((i : ℕ) → IsDrawn (run.draw i))
      → (log : Option (List Bytes)) (r : RotateResult)
      → (rotate_audit_log C old new run log r).error ≡ none
      → SameLog C old new log (rotate_audit_log C old new run log r).audit
  unfolding rotate_audit_log
  rotate_audit_log-SameLog run draws none r h = tt
  rotate_audit_log-SameLog run draws (some ls) r h =
      let (o, e, is, count) = rotate_audit_log-ok run ls r h in
      rw is (rotate_lines-SameLines run draws 0 ls o e)

  pub rotate_audit_log_failed :
      (run : AuditRun) (log : Option (List Bytes)) (r : RotateResult) (e : RotateError)
      → (rotate_audit_log C old new run log r).error ≡ some e
      → (rotate_audit_log C old new run log r).audit ≡ log
  unfolding rotate_audit_log
  rotate_audit_log_failed run none r e h = refl
  rotate_audit_log_failed run (some ls) r e h =
      elim (Outcome-cases (rewrite_log C old new run ls)) [
        | inr (x, f) ↦ ground (arith, f)
        | inl (o, f) ↦ absurd (ground (arith, h, f))
      ]

  -- With a sound cipher, two keys of which no stored text opens under both, and nonces of twelve
  -- bytes: once the audit log was rotated and a line of it re-encrypted, no later run with the same
  -- two keys over the log that the first one left ends without an error.
  pub rotate_audit_log-again :
      (separate : IsSeparate C old new) (run run' : AuditRun)
      → ((i : ℕ) → IsDrawn (run.draw i))
      → (ls : List Bytes) (r r' : RotateResult)
      → (rotate_audit_log C old new run (some ls) r).error ≡ none
      → r.audit_lines_rotated
        < (rotate_audit_log C old new run (some ls) r).result.audit_lines_rotated
      → (rotate_audit_log C old new run'
          (rotate_audit_log C old new run (some ls) r).audit
          r').error
        ≢ none
  rotate_audit_log-again separate run run' draws ls r r' h more again =
      let (o, e, is, count) = rotate_audit_log-ok run ls r h in
      let some_line = rotate_lines-HasNewLine run draws 0 ls o e (omega (arith, more, count)) in
      let (o', e', is', count') = rotate_audit_log-ok run' o.lines r' (rw is at again) in
      rotate_lines-stuck separate run' 0 o.lines o' some_line e'
