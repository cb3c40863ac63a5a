-- ===== src/Storage/Rotation/Ends.antt =====
-- Both passes end.
use mathlib.Core.List.{Memᴰ}
use gogoclaw.Base.{
  ℕ, suc, ◌<◌, ◌≤◌, ◌+◌, ◌≡◌, ◌≢◌, refl, sym, ap, ◌∙◌, inl, inr, arith, Bool, true, false, Option,
  none, some, [], ◌∷◌, not, length, if◌then◌else◌,
}
use gogoclaw.Base.Bytes.{Bytes}
use gogoclaw.Storage.Messages.{StoredMessage, Row}
use gogoclaw.Base.Outcome.{ok}
use gogoclaw.Storage.Encryption.{Crypto}
use gogoclaw.Storage.Rotation.{
  rotate_one, encrypt_one, rotate_page, encrypt_page, both_passes, rotate_messages,
}
use gogoclaw.Storage.Rotation.Statements.{
  Datetime, Table, Sealed, Run, Batch, Pass, Cursor, cursor_of, last_of, after, overwrite,
  update_row,
}
use gogoclaw.Storage.Rotation.Pages.{
  Ended, out_of_fuel, Ended-cases, next, run_pages, run_pages-ends,
}
use gogoclaw.Storage.Rotation.Order.{IsAgreeing, after_irrefl, after_trans}
use gogoclaw.Storage.Rotation.Tables.{
  Zip, Zip-refl, Zip-mono, update_row-Zip, each_row-keeps, each_row-reaches,
}
use gogoclaw.Storage.Rotation.Select.{select_rows-Mem, last_of-Mem}
use gogoclaw.Storage.Rotation.Batches.{
  rotate_messages-cases, rotate_one-cases, encrypt_one-cases, rotate_page-next, encrypt_page-next,
}

abbrev pub count : (Row → Bool) → Table → ℕ
count p [] = 0
count p (r ∷ rs) = (if p r then 1 else 0) + count p rs

pub count-le : (p : Row → Bool) (t : Table) → count p t ≤ length t
count-le p [] = omega arith
count-le p (r ∷ rs) = ground (arith, count-le p rs)

abbrev pub Fewer : (Row → Bool) → (Row → Bool) → (Row → Type 0) → Row → Row → Type 0
Fewer p p' K x y = (p' y ≡ true → p x ≡ true) × (K x → p' y ≡ false)

count-Zip-le :
    (p p' : Row → Bool) (K : Row → Type 0) (t u : Table)
    → Zip (Fewer p p' K) t u
    → count p' u ≤ count p t
count-Zip-le p p' K [] [] z = omega arith
count-Zip-le p p' K [] (y ∷ ys) z = absurd z
count-Zip-le p p' K (x ∷ xs) [] z = absurd z
count-Zip-le p p' K (x ∷ xs) (y ∷ ys) z =
    let rest = count-Zip-le p p' K xs ys z.1 in let here = z.0.0 in ground (arith, rest, here)

pub count-Zip-lt :
    (p p' : Row → Bool) (K : Row → Type 0) (t u : Table) (r : Row)
    → Zip (Fewer p p' K) t u
    → Memᴰ r t
    → p r ≡ true
    → K r
    → count p' u < count p t
count-Zip-lt p p' K [] u r z i e k = elim i [ ]
count-Zip-lt p p' K (x ∷ xs) [] r z i e k = absurd z
count-Zip-lt p p' K (x ∷ xs) (y ∷ ys) r z (Memᴰ.head same) e k =
    let rest = count-Zip-le p p' K xs ys z.1 in
    let gone : p' y ≡ false = z.0.1 (rw (← same) k) in
    let had : p x ≡ true = (rw same at e) in ground (arith, rest, gone, had)
count-Zip-lt p p' K (x ∷ xs) (y ∷ ys) r z (Memᴰ.tail i) e k =
    let rest = count-Zip-lt p p' K xs ys r z.1 i e k in
    let here = z.0.0 in ground (arith, rest, here)

-- The rows differ in the content, the tool calls and the flag at most.
pub record IsLike (x y : Row) : Type 0 where
  pub others : (s : Sealed) → overwrite s y ≡ overwrite s x
  pub stays_encrypted : x.encrypted ≡ true → y.encrypted ≡ true

pub IsLike-refl : (x : Row) → IsLike x x
IsLike-refl x = record { others = λ s. refl; stays_encrypted = λ h. h }

pub IsLike-overwrite : (s : Sealed) (x y : Row) → IsLike x y → IsLike x (overwrite s y)
IsLike-overwrite s x y l = record { others = λ s'. l.others s'; stays_encrypted = λ h. refl }

pub IsLike-id : (x y : Row) → IsLike x y → y.message.id ≡ x.message.id
IsLike-id x y l =
    ap (λ (r : Row). r.message.id) (l.others (record { content = []; tool_calls = [] }))

IsLike-after :
    (datetime : Datetime) (c : Option Cursor) (x y : Row)
    → IsLike x y
    → after datetime c y.message ≡ after datetime c x.message
unfolding after
IsLike-after datetime none x y l = refl
IsLike-after datetime (some c) x y l =
    ap (λ (r : Row). after datetime (some c) r.message)
      (l.others (record { content = []; tool_calls = [] }))

pub still_plain :
    (x y : Row)
    → (x.encrypted ≡ true → y.encrypted ≡ true)
    → not y.encrypted ≡ true
    → not x.encrypted ≡ true
still_plain x y h p = ground (arith, h, p)

-- A row like the table's, encrypted if it has the id.
abbrev pub Reached : StoredMessage → Row → Row → Type 0
Reached n x y = IsLike x y × (x.message.id ≡ n.id → y.encrypted ≡ true)

update-IsLike :
    (id : Bytes) (s : Sealed) (t u : Table) → Zip IsLike t u → Zip IsLike t (update_row id s u)
update-IsLike id s t u z =
    update_row-Zip IsLike IsLike id s t u IsLike-id (λ x y i e l. IsLike-overwrite s x y l)
      (λ x y e l. l) z

module _ (C : Crypto) (old new : Bytes) (run : Run) where
  rotate_one-IsLike :
      (k : ℕ) (t : Table) (m : StoredMessage) (b b' : Batch)
      → rotate_one C old new run k m b ≡ ok b'
      → Zip IsLike t b.table
      → Zip IsLike t b'.table
  rotate_one-IsLike k t m b b' h z = elim (rotate_one-cases C old new run k m b b' h) [
    | inl (same, found) ↦ rw same z
    | inr (s, same, found) ↦ rw same (update-IsLike m.id s t b.table z)
  ]

  encrypt_one-Reached :
      (k : ℕ) (t : Table) (m : StoredMessage) (u u' : Table)
      → encrypt_one C old new run k m u ≡ ok u'
      → Zip IsLike t u
      → Zip (Reached m) t u' × ((n : StoredMessage) → Zip (Reached n) t u → Zip (Reached n) t u')
  encrypt_one-Reached k t m u u' h z =
      let (s, same, found) = encrypt_one-cases C old new run k m u u' h in
      rw same (
        update_row-Zip IsLike (Reached m) m.id s t u IsLike-id
            (λ x y i e l. (IsLike-overwrite s x y l, λ e'. refl))
            (λ x y e l. (l, λ e'. absurd (e e'))) z,
        λ n d.
            update_row-Zip (Reached n) (Reached n) m.id s t u (λ x y l. IsLike-id x y l.0)
              (λ x y i e l. (IsLike-overwrite s x y l.0, λ e'. refl)) (λ x y e l. l) d,
      )

  rotate_page-lower :
      (datetime : Datetime) (agrees : IsAgreeing datetime) (k : ℕ) (s s' : Pass)
      → rotate_page C old new datetime run k s ≡ next s'
      → count (λ r. after datetime s'.cursor r.message) s'.table
        < count (λ r. after datetime s.cursor r.message) s.table
  rotate_page-lower datetime agrees k s s' h =
      let (m, ms, b, picked, steps, same, cursor) =
        rotate_page-next C old new run datetime k s s' h in
      let last = last_of m ms in
      let (r, inside, is, e, passed) =
        select_rows-Mem true (after datetime s.cursor) s.table last
          (rw picked (last_of-Mem m ms)) in
      let like : Zip IsLike s.table b.table =
        each_row-keeps (rotate_one C old new run k) (λ (b : Batch). Zip IsLike s.table b.table)
          (m ∷ ms) _ b (λ n q q' i one z. rotate_one-IsLike k s.table n q q' one z) steps
          (Zip-refl IsLike IsLike-refl s.table) in
      rw (same, cursor)
        (count-Zip-lt (λ (x : Row). after datetime s.cursor x.message)
          (λ (x : Row). after datetime (some (cursor_of last)) x.message) (λ x. x ≡ r) s.table
          b.table r
          (Zip-mono IsLike _ s.table b.table
            (λ x y i l. (
              λ p.
                  after_trans datetime agrees s.cursor last x.message passed
                    (sym (IsLike-after datetime (some (cursor_of last)) x y l) ∙ p),
              λ t.
                  IsLike-after datetime (some (cursor_of last)) x y l
                  ∙ rw (t, is) (after_irrefl datetime agrees last),
            ))
            like)
          inside (rw is passed) refl)

  encrypt_page-lower :
      (k : ℕ) (s s' : Pass)
      → encrypt_page C old new run k s ≡ next s'
      → count (λ r. not r.encrypted) s'.table < count (λ r. not r.encrypted) s.table
  encrypt_page-lower k s s' h =
      let (m, ms, t, picked, steps, same) = encrypt_page-next C old new run k s s' h in
      let (r, inside, is, e, passed) =
        select_rows-Mem false (λ m. true) s.table m (rw picked (Memᴰ.head refl)) in
      let d : Zip (Reached m) s.table t =
        each_row-reaches (encrypt_one C old new run k) (Zip IsLike s.table)
          (λ n. Zip (Reached n) s.table) (m ∷ ms) s.table t
          (λ n q q' i one z.
            let d = (encrypt_one-Reached k s.table n q q' one z).0 in
            (Zip-mono (Reached n) IsLike s.table q' (λ x y l d. d.0) d, d))
          (λ n' n q q' i one z. (encrypt_one-Reached k s.table n q q' one z).1 n') steps
          (Zip-refl IsLike IsLike-refl s.table) m (Memᴰ.head refl) in
      rw same (
        count-Zip-lt (λ (x : Row). not x.encrypted) (λ (x : Row). not x.encrypted)
          (λ x. x.message.id ≡ m.id) s.table t r
          (Zip-mono (Reached m) _ s.table t
            (λ x y i l. (still_plain x y l.0.stays_encrypted, λ e'. rw (l.1 e') refl)) d)
          inside (rw e refl) (ap (λ (n : StoredMessage). n.id) is))

both_passes-ends :
    (C : Crypto) (old new : Bytes) (datetime : Datetime) (agrees : IsAgreeing datetime)
    (first second : Run) (s : Pass)
    → (both_passes C old new datetime first second s).0 ≢ out_of_fuel
unfolding both_passes
both_passes-ends C old new datetime agrees first second s f =
    let one = run_pages (rotate_page C old new datetime first) (suc (length s.table)) 0 s in
    elim (Ended-cases one.0) [
      | inl e ↦
          run_pages-ends (encrypt_page C old new second)
            (λ (p : Pass). count (λ r. not r.encrypted) p.table)
            (encrypt_page-lower C old new second) (suc (length one.1.table)) 0 one.1
            (omega (arith, count-le (λ r. not r.encrypted) one.1.table)) (rw (e, both_passes) at f)
      | inr (inl (x, e)) ↦ absurd (ground (arith, f, e))
      | inr (inr e) ↦
          run_pages-ends (rotate_page C old new datetime first)
            (λ (p : Pass). count (λ r. after datetime p.cursor r.message) p.table)
            (rotate_page-lower C old new first datetime agrees) (suc (length s.table)) 0 s
            (omega (arith, count-le (λ r. after datetime s.cursor r.message) s.table)) e
    ]

-- If `datetime` reads the same time of a stored text and of what is scanned of it, where it reads
-- both, the fuel of both passes is enough: whatever fails, and whatever times and ids the messages
-- have, the rotation of the messages ends, with an error or without one.
pub rotate_messages-ends :
    (C : Crypto) (old new : Bytes) (datetime : Datetime) (agrees : IsAgreeing datetime)
    (first second : Run) (s : Pass)
    → (rotate_messages C old new datetime first second s).0 ≢ out_of_fuel
rotate_messages-ends C old new datetime agrees first second s =
    elim (rotate_messages-cases C old new datetime first second s) [
      | inl e ↦ λ f. ground (arith, e.1, f)
      | inr e ↦ λ f.
          both_passes-ends C old new datetime agrees first second s
            (ap (λ (x : Ended × Pass). x.0) (sym e) ∙ f)
    ]
