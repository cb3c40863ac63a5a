-- ===== src/Storage/Migration/Laws.antt =====
-- The migration of plaintext messages ends, and what it leaves.
use mathlib.Core.List.{Memᴰ}
use gogoclaw.Base.{
  ℕ, suc, ◌==◌, ◌≡◌, refl, sym, ap, ◌∙◌, inl, inr, arith, true, false, not, some, List, ◌∷◌, length,
  Bool-cases,
}
use gogoclaw.Base.Bytes.{Bytes}
use gogoclaw.Base.Outcome.{ok, Outcome-cases}
use gogoclaw.Storage.Encryption.{Crypto, IsSound}
use gogoclaw.Storage.Messages.{StoredMessage, Row, load_row}
use gogoclaw.Storage.Rotation.{encrypt_row}
use gogoclaw.Storage.Rotation.Statements.{Table, Sealed, Run, overwrite, each_row, select_rows}
use gogoclaw.Storage.Rotation.Pages.{finished, done, next, run_pages, run_pages-inv, run_pages-done}
use gogoclaw.Storage.Rotation.Kept.{
  IsKept, IsKept-refl, IsKept-trans, IsKept-id, encrypt_row-IsKept,
}
use gogoclaw.Storage.Rotation.Tables.{
  Zip, Zip-refl, Zip-trans, Zip-right, Zip-IsKeyed, IsKeyed, IsKeyed-unique, each_row-keeps,
}
use gogoclaw.Storage.Rotation.Ends.{
  count, count-le, count-Zip-lt, IsLike, IsLike-refl, IsLike-overwrite, IsLike-id, still_plain,
  Reached,
}
use gogoclaw.Storage.Rotation.Tables.{Zip-mono, each_row-reaches}
use gogoclaw.Base.{◌<◌, ◌≢◌, ◌⊎◌}
use gogoclaw.Storage.Rotation.Pages.{Ended-cases, stopped, out_of_fuel, run_pages-ends, RotateError}
use gogoclaw.Storage.Rotation.Select.{select_rows-Mem}
use gogoclaw.Storage.Rotation.Sorted.{select_rows-none}
use gogoclaw.Storage.Rotation.Batches.{List-cases}
use gogoclaw.Storage.Rotation.Laws.{DrawsNonces}
use gogoclaw.Storage.Migration.{
  update_plain_row, count_plain, migrate_one, commit_migrated, migrate_page, migrate_to_encrypted,
}
use gogoclaw.Storage.Migration.Updates.{
  no_plain, update_plain_row-Reached, update_plain_row-Zip, was_encrypted,
}

module _ (C : Crypto) (sound : IsSound C) (key : Bytes) (run : Run) (draws : DrawsNonces run) where
  abbrev Kept : Row → Row → Type 0
  Kept = IsKept C key key

  migrate_one-cases :
      (k : ℕ) (m : StoredMessage) (u u' : Table)
      → migrate_one C key run k m u ≡ ok u'
      → (s : Sealed) × (u' ≡ update_plain_row m.id s u)
        × (encrypt_row C key key (run.draw_content k m.id) (run.draw_calls k m.id) m ≡ ok s)
  unfolding migrate_one
  migrate_one-cases k m u u' h =
      elim (Outcome-cases
        (encrypt_row C key key (run.draw_content k m.id) (run.draw_calls k m.id) m)) [
          | inr (x, f) ↦ absurd (ground (arith, h, f))
          | inl (s, f) ↦ elim (Bool-cases (run.updated k m.id)) [
            | inr g ↦ absurd (ground (arith, h, f, g))
            | inl g ↦ (s, ground (arith, h, f, g), f)
          ]
        ]

  migrate_one-Kept :
      (k : ℕ) (t : Table) (m : StoredMessage) (r : Row) (u u' : Table)
      → IsKeyed t
      → Memᴰ r t
      → r.message ≡ m
      → r.encrypted ≡ false
      → migrate_one C key run k m u ≡ ok u'
      → Zip Kept t u
      → Zip Kept t u'
  migrate_one-Kept k t m r u u' keyed i is e h z =
      let (s, same, f) = migrate_one-cases k m u u' h in
      let good : Kept r (overwrite s r) =
        encrypt_row-IsKept C key key sound (run.draw_content k m.id) (run.draw_calls k m.id)
          (draws k m.id).0 (draws k m.id).1 r s e (rw is f) in
      rw same (
        update_plain_row-Zip Kept m.id s t u (IsKept-id C key key)
          (λ x y j id kept.
            let it : x ≡ r =
              IsKeyed-unique t x r keyed j i (id ∙ sym (ap (λ (n : StoredMessage). n.id) is)) in
            let now : overwrite s y ≡ overwrite s r = kept.others s ∙ ap (overwrite s) it in
            rw now (rw it good))
          z)

  commit_migrated-next :
      (k : ℕ) (t t' : Table) (ms : List StoredMessage)
      → commit_migrated C key run k t ms ≡ next t'
      → each_row (migrate_one C key run k) ms t ≡ ok t'
  unfolding commit_migrated
  commit_migrated-next k t t' ms h = elim (Bool-cases (run.begun k)) [
    | inr e ↦ absurd (ground (arith, h, e))
    | inl e ↦ elim (Outcome-cases (each_row (migrate_one C key run k) ms t)) [
      | inr (x, f) ↦ absurd (ground (arith, h, e, f))
      | inl (u, f) ↦ elim (Bool-cases (run.committed k)) [
        | inr g ↦ absurd (ground (arith, h, e, f, g))
        | inl g ↦ f ∙ ground (arith, h, e, f, g)
      ]
    ]
  ]

  migrate_page-next :
      (k : ℕ) (t t' : Table)
      → migrate_page C key run k t ≡ next t'
      → (m : StoredMessage) × (ms : List StoredMessage) × (select_rows false (λ m. true) t ≡ m ∷ ms)
        × (each_row (migrate_one C key run k) (m ∷ ms) t ≡ ok t')
  unfolding migrate_page
  migrate_page-next k t t' h = elim (Bool-cases (run.live k)) [
    | inr e ↦ absurd (ground (arith, h, e))
    | inl e ↦ elim (Bool-cases (count_plain t == 0)) [
      | inl c ↦ absurd (ground (arith, h, e, c))
      | inr c ↦ elim (Bool-cases (run.queried k)) [
        | inr q ↦ absurd (ground (arith, h, e, c, q))
        | inl q ↦ elim (List-cases (select_rows false (λ m. true) t)) [
          | inl l ↦ absurd (ground (arith, h, e, c, q, l))
          | inr (m, ms, l) ↦
              (m, ms, l, commit_migrated-next k t t' (m ∷ ms) (ground (arith, h, e, c, q, l)))
        ]
      ]
    ]
  ]

  migrate_page-done :
      (k : ℕ) (t : Table) (r : Row)
      → migrate_page C key run k t ≡ done
      → Memᴰ r t
      → r.encrypted ≡ true
  unfolding migrate_page commit_migrated
  migrate_page-done k t r h i = elim (Bool-cases (count_plain t == 0)) [
    | inl c ↦ no_plain t r i c
    | inr c ↦ elim (List-cases (select_rows false (λ m. true) t)) [
      | inr (m, ms, l) ↦ absurd (ground (arith, h, c, l))
      | inl l ↦ elim (Bool-cases r.encrypted) [
        | inl e ↦ e
        | inr e ↦ absurd (select_rows-none false (λ m. true) t r i e refl l)
      ]
    ]
  ]

  migrate_page-Kept :
      (k : ℕ) (t t' : Table) → migrate_page C key run k t ≡ next t' → IsKeyed t → Zip Kept t t'
  migrate_page-Kept k t t' h keyed =
      let (m, ms, picked, steps) = migrate_page-next k t t' h in
      each_row-keeps (migrate_one C key run k) (Zip Kept t) (m ∷ ms) t t'
        (λ n q q' i one z.
          let (r, inside, is, e, passed) = select_rows-Mem false (λ m. true) t n (rw picked i) in
          migrate_one-Kept k t n r q q' keyed inside is e one z)
        steps (Zip-refl Kept (IsKept-refl C key key) t)

  -- A row that is encrypted, with which the key still reads what it read.
  abbrev pub Migrated : Row → Row → Type 0
  Migrated x y =
      (y.encrypted ≡ true)
      × ((m : StoredMessage) → load_row C (some key) x ≡ ok m → load_row C (some key) y ≡ ok m)

  -- One message more is encrypted, and those that were stay so.
  migrate_one-Reached :
      (k : ℕ) (t : Table) (m : StoredMessage) (u u' : Table)
      → migrate_one C key run k m u ≡ ok u'
      → Zip IsLike t u
      → Zip (Reached m) t u' × ((n : StoredMessage) → Zip (Reached n) t u → Zip (Reached n) t u')
  migrate_one-Reached k t m u u' h z =
      let (s, same, f) = migrate_one-cases k m u u' h in
      rw same (
        update_plain_row-Reached IsLike (Reached m) m.id s t u
            (λ x y l. (IsLike-overwrite s x y l, λ e. refl))
            (λ x y skipped l. (l, λ e. was_encrypted y m.id (IsLike-id x y l ∙ e) skipped)) z,
        λ n d.
            update_plain_row-Reached (Reached n) (Reached n) m.id s t u
              (λ x y l. (IsLike-overwrite s x y l.0, λ e. refl)) (λ x y skipped l. l) d,
      )

  migrate_page-lower :
      (k : ℕ) (t t' : Table)
      → migrate_page C key run k t ≡ next t'
      → count (λ r. not r.encrypted) t' < count (λ r. not r.encrypted) t
  migrate_page-lower k t t' h =
      let (m, ms, picked, steps) = migrate_page-next k t t' h in
      let (r, inside, is, e, passed) =
        select_rows-Mem false (λ m. true) t m (rw picked (Memᴰ.head refl)) in
      let d : Zip (Reached m) t t' =
        each_row-reaches (migrate_one C key run k) (Zip IsLike t) (λ n. Zip (Reached n) t) (m ∷ ms)
          t t'
          (λ n q q' i one z.
            let d = (migrate_one-Reached k t n q q' one z).0 in
            (Zip-mono (Reached n) IsLike t q' (λ x y l d. d.0) d, d))
          (λ n' n q q' i one z. (migrate_one-Reached k t n q q' one z).1 n') steps
          (Zip-refl IsLike IsLike-refl t) m (Memᴰ.head refl) in
      count-Zip-lt (λ (x : Row). not x.encrypted) (λ (x : Row). not x.encrypted)
        (λ x. x.message.id ≡ m.id) t t' r
        (Zip-mono (Reached m) _ t t'
          (λ x y i l. (still_plain x y l.0.stays_encrypted, λ e'. rw (l.1 e') refl)) d)
        inside (rw e refl) (ap (λ (n : StoredMessage). n.id) is)

  finished-Migrated :
      (t : Table)
      → IsKeyed t
      → (migrate_to_encrypted C (some key) run t).0 ≡ finished
      → Zip Migrated t (migrate_to_encrypted C (some key) run t).1
  unfolding migrate_to_encrypted
  finished-Migrated t keyed h =
      let page = migrate_page C key run in
      let end = (run_pages page (suc (length t)) 0 t).1 in
      let (keyed', z) =
        run_pages-inv page (λ u. IsKeyed u × Zip Kept t u)
          (λ k a b e q.
            let kept = migrate_page-Kept k a b e q.0 in
            (
              Zip-IsKeyed Kept a b (IsKept-id C key key) kept q.0,
              Zip-trans Kept (IsKept-trans C key key) t a b q.1 kept,
            ))
          (suc (length t)) 0 t (keyed, Zip-refl Kept (IsKept-refl C key key) t) in
      let (k, finish) = run_pages-done page (suc (length t)) 0 t h in
      Zip-right Kept Migrated t end
        (λ x y i kept. (migrate_page-done k end y finish i, kept.new_reads)) z

  migrate_to_encrypted-ends :
      (t : Table) → (migrate_to_encrypted C (some key) run t).0 ≢ out_of_fuel
  unfolding migrate_to_encrypted
  migrate_to_encrypted-ends t =
      run_pages-ends (migrate_page C key run) (count (λ r. not r.encrypted)) migrate_page-lower
        (suc (length t)) 0 t (omega (arith, count-le (λ r. not r.encrypted) t))

  -- With a sound cipher, nonces of twelve bytes and a table whose ids differ: the migration to a key
  -- stops with an error, or it finishes and every row is encrypted, and a message that was read with
  -- the key, encrypted or not, is read the same from the row in its place.
  pub migrate_to_encrypted-Migrated :
      (t : Table)
      → IsKeyed t
      → ((e : RotateError) × ((migrate_to_encrypted C (some key) run t).0 ≡ stopped e))
        ⊎ (((migrate_to_encrypted C (some key) run t).0 ≡ finished)
            × Zip Migrated t (migrate_to_encrypted C (some key) run t).1)
  migrate_to_encrypted-Migrated t keyed =
      elim (Ended-cases (migrate_to_encrypted C (some key) run t).0) [
        | inl e ↦ inr (e, finished-Migrated t keyed e)
        | inr (inl (x, e)) ↦ inl (x, e)
        | inr (inr e) ↦ absurd (migrate_to_encrypted-ends t e)
      ]
