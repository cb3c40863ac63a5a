-- ===== src/Storage/Rotation/Complete.antt =====
-- A rotation of the messages that succeeds leaves nothing under the old key but what its cursor
-- passed over.
use mathlib.Core.List.{Memᴰ}
use gogoclaw.Base.{
  ℕ, suc, ◌≡◌, refl, sym, ap, ◌∙◌, inl, inr, ◌⊎◌, arith, true, false, none, some, [], Bool-cases,
  subst, length,
}
use gogoclaw.Base.Bytes.{Bytes}
use gogoclaw.Storage.Encryption.{Crypto, IsSound}
use gogoclaw.Storage.Messages.{StoredMessage, Row}
use gogoclaw.Storage.Rotation.{rotate_page, encrypt_page, both_passes, rotate_messages}
use gogoclaw.Storage.Rotation.Statements.{
  Datetime, Table, Run, Pass, last_of, cursor_of, after, before, select_rows, row_aad,
}
use gogoclaw.Storage.Rotation.Pages.{
  Ended, finished, Ended-cases, next, run_pages, run_pages-inv, run_pages-done,
}
use gogoclaw.Storage.Rotation.Sealing.{IsSeparate}
use gogoclaw.Storage.Rotation.Kept.{
  IsKept, IsMoved, IsKept-refl, IsKept-id, IsUnderNew, load_row-OpensAs, load_row-plain,
}
use gogoclaw.Storage.Rotation.Tables.{Zip, Zip-refl, Zip-Mem, Zip-right, IsKeyed}
use gogoclaw.Storage.Rotation.Order.{before_total}
use gogoclaw.Storage.Rotation.PassedOver.{
  IsPassedOver, IsRekeyed, passed-IsPassedOver, IsKept-IsPassedOver,
}
use gogoclaw.Storage.Rotation.Sorted.{Mem-select_rows, select_rows-none}
use gogoclaw.Storage.Rotation.Select.{last_of-Mem, select_rows-Mem}
use gogoclaw.Storage.Rotation.Batches.{
  rotate_messages-cases, rotate_page-next, rotate_page-done, encrypt_page-done,
}
use gogoclaw.Storage.Rotation.Updates.{Rotated}
use gogoclaw.Storage.Rotation.Laws.{
  DrawsNonces, Safe, extend, rotate_page-Rotated, first_pass-Safe, second_pass-Safe,
}

no_plain :
    (y : Row) (t : Table) → Memᴰ y t → select_rows false (λ m. true) t ≡ [] → y.encrypted ≡ true
no_plain y t i e = elim (Bool-cases y.encrypted) [
  | inl h ↦ h
  | inr h ↦ absurd (select_rows-none false (λ m. true) t y i h refl e)
]

module _ (C : Crypto) (sound : IsSound C) (old new : Bytes) (separate : IsSeparate C old new)
    (datetime : Datetime) where
  abbrev UnderNew : Row → Type 0
  UnderNew = IsUnderNew C old new

  abbrev Reached : Table → Row → Type 0
  Reached t r = UnderNew r ⊎ IsPassedOver datetime t r.message

  -- The rows behind the cursor are under the new key or were passed over.
  abbrev Passed : Table → Pass → Type 0
  Passed t s = (r : Row) → Memᴰ r s.table → after datetime s.cursor r.message ≡ false → Reached t r

  IsKept-Reached : (t : Table) (r y : Row) → IsKept C old new r y → Reached t r → Reached t y
  IsKept-Reached t r y kept (inl u) = inl (u.0, kept.new_reads u.0 u.1)
  IsKept-Reached t r y kept (inr p) = inr ((IsKept-IsPassedOver C old new datetime t r y kept).1 p)

  plain-UnderNew : (r : Row) → r.encrypted ≡ false → UnderNew r
  plain-UnderNew r e = (r.message, load_row-plain C old new (some new) r e)

  others-before :
      (r y : Row) (l : StoredMessage)
      → IsKept C old new r y
      → before l y.message ≡ before l r.message
  unfolding before
  others-before r y l kept =
      ap (λ (x : Row). before l x.message) (kept.others (record { content = []; tool_calls = [] }))

  not_past : (s : Pass) (y : Row) → s.cursor ≡ none → after datetime s.cursor y.message ≡ false → ⊥
  unfolding after
  not_past s y start past = ground (arith, start, past)

  module _ (run : Run) (draws : DrawsNonces run) where
    -- The last row of a batch stands for one of the table that the pass began with.
    last-IsPassedOver :
        (t : Table) (s : Pass) (last y : StoredMessage)
        → Zip (IsKept C old new) t s.table
        → Memᴰ last (select_rows true (after datetime s.cursor) s.table)
        → before last y ≡ true
        → after datetime (some (cursor_of last)) y ≡ false
        → IsPassedOver datetime t y
    last-IsPassedOver t s last y from i h past =
        let (q, j, is, _, _) = select_rows-Mem true (after datetime s.cursor) s.table last i in
        let (l, k, kept) = Zip-Mem (IsKept C old new) t s.table q from j in
        passed-IsPassedOver C old new datetime t l q y k kept (rw is h) (rw is past)

    -- A row that a batch read, or that is not before the batch's last row, and not after it.
    batch-Reached :
        (t : Table) (k : ℕ) (s s' : Pass) (r y : Row)
        → rotate_page C old new datetime run k s ≡ next s'
        → Safe C sound old new separate t s
        → Memᴰ y s'.table
        → Memᴰ r s.table
        → IsKept C old new r y
        → r.encrypted ≡ true
        → after datetime s.cursor r.message ≡ true
        → after datetime s'.cursor y.message ≡ false
        → Reached t y
    batch-Reached t k s s' r y h (keyed, from) j i kept e later past =
        let (m, ms, b, picked, steps, same, cursor) =
          rotate_page-next C old new run datetime k s s' h in
        let rotated =
          (rotate_page-Rotated C sound old new separate run draws datetime k s s' h keyed).1 in
        let last = last_of m ms in
        let last_in : Memᴰ last (select_rows true (after datetime s.cursor) s.table) =
          (rw picked (last_of-Mem m ms)) in
        let reached : (n : StoredMessage)
            → Memᴰ n (select_rows true (after datetime s.cursor) s.table)
            → r.message.id ≡ n.id
            → UnderNew y =
          λ n inside is.
            let (x, l, d) = Zip-Mem (Rotated C old new n) s.table s'.table y (rotated n inside) j in
            d.1 (sym (IsKept-id C old new x y d.0) ∙ IsKept-id C old new r y kept ∙ is) in
        elim (Mem-select_rows true (after datetime s.cursor) s.table r m ms i e later picked) [
          | inl a ↦ inl (reached r.message a refl)
          | inr ahead ↦ elim (Bool-cases (before last r.message)) [
            | inr seen ↦ inl (reached last last_in (before_total r.message last ahead seen))
            | inl first ↦ inr (
                last-IsPassedOver t s last y.message from last_in
                  (others-before r y last kept ∙ first) (rw cursor at past))
          ]
        ]

    next-Passed :
        (t : Table) (k : ℕ) (s s' : Pass)
        → rotate_page C old new datetime run k s ≡ next s'
        → Safe C sound old new separate t s
        → Passed t s
        → Passed t s'
    next-Passed t k s s' h safe passed y j past =
        let kept =
          (rotate_page-Rotated C sound old new separate run draws datetime k s s' h safe.0).0 in
        let (r, i, like) = Zip-Mem (IsKept C old new) s.table s'.table y kept j in
        let stays = IsKept-Reached t r y like in
        elim (Bool-cases r.encrypted) [
          | inr e ↦ stays (inl (plain-UnderNew r e))
          | inl e ↦ elim (Bool-cases (after datetime s.cursor r.message)) [
            | inr before_it ↦ stays (passed r i before_it)
            | inl later ↦ batch-Reached t k s s' r y h safe j i like e later past
          ]
        ]

    -- After a first pass that succeeded every row is under the new key or was passed over.
    first_pass-Reached :
        (fuel : ℕ) (s : Pass)
        → s.cursor ≡ none
        → IsKeyed s.table
        → (run_pages (rotate_page C old new datetime run) fuel 0 s).0 ≡ finished
        → (r : Row) → Memᴰ r (run_pages (rotate_page C old new datetime run) fuel 0 s).1.table
        → Reached s.table r
    first_pass-Reached fuel s start keyed h r i =
        let page = rotate_page C old new datetime run in
        let end = (run_pages page fuel 0 s).1 in
        let inv =
          run_pages-inv page (λ p. Safe C sound old new separate s.table p × Passed s.table p)
            (λ k a b e q. (
              extend C sound old new separate s.table a b q.0
                  (rotate_page-Rotated C sound old new separate run draws datetime k a b e q.0.0).0,
              next-Passed s.table k a b e q.0 q.1,
            ))
            fuel 0 s
            (
              (keyed, Zip-refl (IsKept C old new) (IsKept-refl C old new) s.table),
              λ y j past. absurd (not_past s y start past),
            ) in
        let (k, finish) = run_pages-done page fuel 0 s h in
        elim (Bool-cases r.encrypted) [
          | inr e ↦ inl (plain-UnderNew r e)
          | inl e ↦ elim (Bool-cases (after datetime end.cursor r.message)) [
            | inr past ↦ inv.1 r i past
            | inl later ↦ absurd (
                select_rows-none true (after datetime end.cursor) end.table r i e later
                  (rotate_page-done C old new run datetime k end finish))
          ]
        ]

  module _ (first second : Run) (draws : DrawsNonces first) (draws' : DrawsNonces second) where
    moved :
        (x y : Row) → IsKept C old new x y → UnderNew y → y.encrypted ≡ true → IsMoved C old new x y
    moved x y kept (m', under) e = record {
      is_encrypted = e;
      reads = λ m h. elim h [
        | inr now ↦ kept.new_reads m now
        | inl before_it ↦ elim (kept.old_reads m before_it) [
          | inr now ↦ now
          | inl still ↦
              let (c, t, a) = load_row-OpensAs C old new old y m e still in
              let (c', t', b) = load_row-OpensAs C old new new y m' e under in
              absurd (separate (row_aad y.message) y.message.content c c' a.0 b.0)
        ]
      ];
    }

    rekeyed :
        (t : Table) (x y : Row)
        → IsKept C old new x y
        → y.encrypted ≡ true
        → Reached t y
        → IsRekeyed C old new datetime t x y
    rekeyed t x y kept e (inl under) = inl (moved x y kept under e)
    rekeyed t x y kept e (inr p) =
        inr (e, kept, (IsKept-IsPassedOver C old new datetime t x y kept).0 p)

    both_passes-IsRekeyed :
        (s : Pass)
        → s.cursor ≡ none
        → IsKeyed s.table
        → (both_passes C old new datetime first second s).0 ≡ finished
        → Zip
            (IsRekeyed C old new datetime s.table)
            s.table
            (both_passes C old new datetime first second s).1.table
    unfolding both_passes
    both_passes-IsRekeyed s start keyed h =
        let page = rotate_page C old new datetime first in
        let one = run_pages page (suc (length s.table)) 0 s in
        let two = run_pages (encrypt_page C old new second) (suc (length one.1.table)) 0 one.1 in
        let none_yet = Zip-refl (IsKept C old new) (IsKept-refl C old new) in
        let safe =
          first_pass-Safe C sound old new separate datetime first second draws draws'
            (suc (length s.table)) s.table s (keyed, none_yet s.table) in
        elim (Ended-cases one.0) [
          | inr (inl (x, e)) ↦ absurd (ground (arith, h, e))
          | inr (inr e) ↦ absurd (ground (arith, h, e))
          | inl e ↦
              let done_both : two.0 ≡ finished = (rw (e, both_passes) at h) in
              let safe2 =
                second_pass-Safe C sound old new separate datetime first second draws draws'
                  (suc (length one.1.table)) s.table one.1 safe in
              let from_one =
                second_pass-Safe C sound old new separate datetime first second draws draws'
                  (suc (length one.1.table)) one.1.table one.1 (safe.0, none_yet one.1.table) in
              let (k, finish) =
                run_pages-done (encrypt_page C old new second) (suc (length one.1.table)) 0 one.1
                  done_both in
              rw (e, both_passes)
                (Zip-right (IsKept C old new) (IsRekeyed C old new datetime s.table) s.table
                  two.1.table
                  (λ x y j kept.
                    let (z, i, like) =
                      Zip-Mem (IsKept C old new) one.1.table two.1.table y from_one.1 j in
                    let flag =
                      no_plain y two.1.table j
                        (encrypt_page-done C old new second k two.1 finish) in
                    rekeyed s.table x y kept flag (
                      IsKept-Reached s.table z y like (
                        first_pass-Reached first draws (suc (length s.table)) s start keyed e z i)))
                  safe2.1)
        ]

    pub rotate_messages-IsRekeyed :
        (s : Pass)
        → s.cursor ≡ none
        → IsKeyed s.table
        → (rotate_messages C old new datetime first second s).0 ≡ finished
        → Zip
            (IsRekeyed C old new datetime s.table)
            s.table
            (rotate_messages C old new datetime first second s).1.table
    rotate_messages-IsRekeyed s start keyed h =
        elim (rotate_messages-cases C old new datetime first second s) [
          | inl e ↦
              subst
                (λ (x : Ended × Pass). Zip (IsRekeyed C old new datetime s.table) s.table x.1.table)
                (sym e.1) (rw (e.0) tt)
          | inr e ↦
              subst
                (λ (x : Ended × Pass). Zip (IsRekeyed C old new datetime s.table) s.table x.1.table)
                (sym e)
                (both_passes-IsRekeyed s start keyed (ap (λ (x : Ended × Pass). x.0) (sym e) ∙ h))
        ]
