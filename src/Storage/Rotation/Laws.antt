-- ===== src/Storage/Rotation/Laws.antt =====
-- Both passes keep every message readable.
use mathlib.Core.List.{Memᴰ}
use gogoclaw.Base.{ℕ, suc, ◌≡◌, sym, inl, inr, true, false, some, ◌∷◌, subst, length}
use gogoclaw.Base.Bytes.{Bytes}
use gogoclaw.Base.Outcome.{ok}
use gogoclaw.Storage.Encryption.{Crypto, IsSound}
use gogoclaw.Storage.Messages.{StoredMessage, Row}
use gogoclaw.Storage.Rotation.{
  rotate_row, rotate_one, encrypt_one, rotate_page, encrypt_page, both_passes, rotate_messages,
}
use gogoclaw.Storage.Rotation.Statements.{
  Datetime, Table, Sealed, Run, Batch, Pass, after, overwrite, select_rows,
}
use gogoclaw.Storage.Rotation.Pages.{Ended, Ended-cases, Page, next, run_pages, run_pages-inv}
use gogoclaw.Storage.Rotation.Sealing.{IsDrawn, IsSeparate}
use gogoclaw.Storage.Rotation.Kept.{
  IsKept, IsKept-refl, IsKept-trans, IsKept-id, IsUnderNew, rotate_row-IsKept,
  rotate_row-IsUnderNew, encrypt_row-IsKept,
}
use gogoclaw.Storage.Rotation.Tables.{
  Zip, Zip-refl, Zip-trans, Zip-mono, Zip-IsKeyed, IsKeyed, each_row-keeps, each_row-reaches,
}
use gogoclaw.Storage.Rotation.Select.{select_rows-Mem}
use gogoclaw.Storage.Rotation.Batches.{
  rotate_messages-cases, rotate_one-cases, encrypt_one-cases, rotate_page-next, encrypt_page-next,
}
use gogoclaw.Storage.Rotation.Updates.{
  Rotated, update-Kept, update-Rotated, update-others, pass-Rotated,
}

-- The nonces that a run draws have twelve bytes.
abbrev pub DrawsNonces : Run → Type 0
DrawsNonces run =
    (k : ℕ) (id : Bytes) → IsDrawn (run.draw_content k id) × IsDrawn (run.draw_calls k id)

module _ (C : Crypto) (sound : IsSound C) (old new : Bytes) (separate : IsSeparate C old new) where
  module _ (run : Run) (draws : DrawsNonces run) where
    module _ (t : Table) (keyed : IsKeyed t) (k : ℕ) where
      rotate_row_lem :
          (m : StoredMessage) (r : Row) (s : Sealed)
          → r.message ≡ m
          → r.encrypted ≡ true
          → rotate_row C old new (run.draw_content k m.id) (run.draw_calls k m.id) m ≡ ok (some s)
          → IsKept C old new r (overwrite s r) × IsUnderNew C old new (overwrite s r)
      rotate_row_lem m r s is e h =
          rotate_row-IsKept C old new sound (run.draw_content k m.id) (run.draw_calls k m.id)
            (draws k m.id).0 (draws k m.id).1 separate r s e (rw is h)

      -- A message of a batch of the first pass reaches the new key, and those before it stay.
      rotate_one-Rotated :
          (m : StoredMessage) (r : Row) (b b' : Batch)
          → Memᴰ r t
          → r.message ≡ m
          → r.encrypted ≡ true
          → rotate_one C old new run k m b ≡ ok b'
          → Zip (IsKept C old new) t b.table
          → Zip (Rotated C old new m) t b'.table
            × ((n : StoredMessage)
                → Zip (Rotated C old new n) t b.table
                → Zip (Rotated C old new n) t b'.table)
      rotate_one-Rotated m r b b' i is e h z = elim (rotate_one-cases C old new run k m b b' h) [
        | inl (same, none_left) ↦ rw same (
          subst (λ (x : StoredMessage). Zip (Rotated C old new x) t b.table) is
              (pass-Rotated C old new t keyed r i b.table
                (rotate_row-IsUnderNew C old new sound (run.draw_content k m.id)
                  (run.draw_calls k m.id) (draws k m.id).0 (draws k m.id).1 r e (rw is none_left))
                z),
          λ n d. d,
        )
        | inr (s, same, found) ↦
            let f = rotate_row_lem m r s is e found in
            rw (same, ← is)
              (
                update-Rotated C old new t keyed r i s b.table f z,
                update-others C old new t keyed r i s b.table f,
              )
      ]

      encrypt_one-Kept :
          (m : StoredMessage) (r : Row) (u u' : Table)
          → Memᴰ r t
          → r.message ≡ m
          → r.encrypted ≡ false
          → encrypt_one C old new run k m u ≡ ok u'
          → Zip (IsKept C old new) t u
          → Zip (IsKept C old new) t u'
      encrypt_one-Kept m r u u' i is e h z =
          let (s, same, found) = encrypt_one-cases C old new run k m u u' h in
          rw (same, ← is)
            (update-Kept C old new t keyed r i s u
              (encrypt_row-IsKept C old new sound (run.draw_content k m.id) (run.draw_calls k m.id)
                (draws k m.id).0 (draws k m.id).1 r s e (rw is found))
              z)

    abbrev page : Datetime → ℕ → Pass → Page Pass
    page datetime = rotate_page C old new datetime run

    -- A batch of the first pass brings its messages under the new key.
    pub rotate_page-Rotated :
        (datetime : Datetime) (k : ℕ) (s s' : Pass)
        → page datetime k s ≡ next s'
        → IsKeyed s.table
        → Zip (IsKept C old new) s.table s'.table
          × ((n : StoredMessage)
              → Memᴰ n (select_rows true (after datetime s.cursor) s.table)
              → Zip (Rotated C old new n) s.table s'.table)
    rotate_page-Rotated datetime k s s' h keyed =
        let (m, ms, b, picked, steps, same, cursor) =
          rotate_page-next C old new run datetime k s s' h in
        let found : (n : StoredMessage)
            → Memᴰ n (m ∷ ms)
            → (r : Row) × Memᴰ r s.table × (r.message ≡ n) × (r.encrypted ≡ true) =
          λ n i.
            let (r, inside, is, e, passed) =
              select_rows-Mem true (after datetime s.cursor) s.table n (rw picked i) in
            (r, inside, is, e) in
        rw (same, picked)
          (
            each_row-keeps (rotate_one C old new run k)
                (λ (b : Batch). Zip (IsKept C old new) s.table b.table) (m ∷ ms) _ b
                (λ n q q' i one z.
                  let (r, inside, is, e) = found n i in
                  Zip-mono (Rotated C old new n) (IsKept C old new) s.table q'.table
                    (λ x y l d. d.0)
                    (rotate_one-Rotated s.table keyed k n r q q' inside is e one z).0)
                steps (Zip-refl (IsKept C old new) (IsKept-refl C old new) s.table),
            each_row-reaches (rotate_one C old new run k)
                (λ (b : Batch). Zip (IsKept C old new) s.table b.table)
                (λ n (b : Batch). Zip (Rotated C old new n) s.table b.table) (m ∷ ms) _ b
                (λ n q q' i one z.
                  let (r, inside, is, e) = found n i in
                  let d = (rotate_one-Rotated s.table keyed k n r q q' inside is e one z).0 in
                  (
                    Zip-mono (Rotated C old new n) (IsKept C old new) s.table q'.table
                        (λ x y l d. d.0) d,
                    d,
                  ))
                (λ n' n q q' i one z.
                  let (r, inside, is, e) = found n i in
                  (rotate_one-Rotated s.table keyed k n r q q' inside is e one z).1 n')
                steps (Zip-refl (IsKept C old new) (IsKept-refl C old new) s.table),
          )

    pub encrypt_page-Kept :
        (k : ℕ) (s s' : Pass)
        → encrypt_page C old new run k s ≡ next s'
        → IsKeyed s.table
        → Zip (IsKept C old new) s.table s'.table
    encrypt_page-Kept k s s' h keyed =
        let (m, ms, t, picked, steps, same) = encrypt_page-next C old new run k s s' h in
        rw same (
          each_row-keeps (encrypt_one C old new run k) (Zip (IsKept C old new) s.table) (m ∷ ms)
            s.table t
            (λ n q q' i one z.
              let (r, inside, is, e, passed) =
                select_rows-Mem false (λ m. true) s.table n (rw picked i) in
              encrypt_one-Kept s.table keyed k n r q q' inside is e one z)
            steps (Zip-refl (IsKept C old new) (IsKept-refl C old new) s.table))

  abbrev pub Safe : Table → Pass → Type 0
  Safe t s = IsKeyed s.table × Zip (IsKept C old new) t s.table

  pub extend :
      (t : Table) (s s' : Pass) → Safe t s → Zip (IsKept C old new) s.table s'.table → Safe t s'
  extend t s s' (keyed, z) z' = (
    Zip-IsKeyed (IsKept C old new) s.table s'.table (IsKept-id C old new) z' keyed,
    Zip-trans (IsKept C old new) (IsKept-trans C old new) t s.table s'.table z z',
  )

  module _ (datetime : Datetime) (first second : Run) (draws : DrawsNonces first)
      (draws' : DrawsNonces second) where
    pub first_pass-Safe :
        (fuel : ℕ) (t : Table) (s : Pass)
        → Safe t s
        → Safe t (run_pages (rotate_page C old new datetime first) fuel 0 s).1
    first_pass-Safe fuel t s safe =
        run_pages-inv (rotate_page C old new datetime first) (Safe t)
          (λ k a b h safe'.
            extend t a b safe' (rotate_page-Rotated first draws datetime k a b h safe'.0).0)
          fuel 0 s safe

    pub second_pass-Safe :
        (fuel : ℕ) (t : Table) (s : Pass)
        → Safe t s
        → Safe t (run_pages (encrypt_page C old new second) fuel 0 s).1
    second_pass-Safe fuel t s safe =
        run_pages-inv (encrypt_page C old new second) (Safe t)
          (λ k a b h safe'. extend t a b safe' (encrypt_page-Kept second draws' k a b h safe'.0))
          fuel 0 s safe

    both_passes-Safe :
        (t : Table) (s : Pass) → Safe t s → Safe t (both_passes C old new datetime first second s).1
    unfolding both_passes
    both_passes-Safe t s safe =
        let one = run_pages (rotate_page C old new datetime first) (suc (length s.table)) 0 s in
        let now = first_pass-Safe (suc (length s.table)) t s safe in
        elim (Ended-cases one.0) [
          | inl e ↦ rw (e, both_passes) (second_pass-Safe (suc (length one.1.table)) t one.1 now)
          | inr (inl (x, e)) ↦ rw (e, both_passes) now
          | inr (inr e) ↦ rw (e, both_passes) now
        ]

    -- With a sound cipher, two keys of which no stored text opens under both, and nonces of twelve
    -- bytes, in a table whose ids differ: whatever fails in the two passes, and wherever they stop,
    -- the rows afterwards are the rows before in the same order, with their ids, an encrypted row
    -- stays encrypted, and a message that was read with the old key is read the same with the old
    -- or the new one, and one that was read with the new key is still read with it.
    pub rotate_messages-Kept :
        (s : Pass)
        → IsKeyed s.table
        → Zip (IsKept C old new) s.table (rotate_messages C old new datetime first second s).1.table
    rotate_messages-Kept s keyed = elim (rotate_messages-cases C old new datetime first second s) [
      | inl e ↦
          subst (λ (x : Ended × Pass). Zip (IsKept C old new) s.table x.1.table) (sym e.1) now.1
      | inr e ↦
          subst (λ (x : Ended × Pass). Zip (IsKept C old new) s.table x.1.table) (sym e)
            (both_passes-Safe s.table s now).1
    ]
      where
        now : Safe s.table s
        now = (keyed, Zip-refl (IsKept C old new) (IsKept-refl C old new) s.table)
