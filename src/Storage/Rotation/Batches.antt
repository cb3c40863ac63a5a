-- ===== src/Storage/Rotation/Batches.antt =====
-- What a committed batch of either pass does to the table.
use gogoclaw.Base.{
  ℕ, ◌≡◌, refl, ◌⊎◌, inl, inr, arith, true, false, none, some, List, [], ◌∷◌, Bool-cases,
  Option-cases,
}
use gogoclaw.Base.Bytes.{Bytes}
use gogoclaw.Base.Outcome.{ok, Outcome-cases}
use gogoclaw.Storage.Encryption.{Crypto}
use gogoclaw.Storage.Messages.{StoredMessage}
use gogoclaw.Storage.Rotation.{
  rotate_row, rotate_one, encrypt_row, encrypt_one, commit_rotated, commit_encrypted, rotate_page,
  encrypt_page, both_passes, rotate_messages,
}
use gogoclaw.Storage.Rotation.Statements.{
  Datetime, Table, Sealed, Run, Batch, Pass, cursor_of, last_of, after, update_row, each_row,
  select_rows,
}
use gogoclaw.Storage.Rotation.Pages.{finished, done, next}

pub List-cases {ℓ} :
    {A : Type ℓ} (xs : List A) → (xs ≡ []) ⊎ ((x : A) × (ys : List A) × (xs ≡ x ∷ ys))
List-cases [] = inl refl
List-cases (x ∷ xs) = inr (x, xs, refl)

pub rotate_messages-cases :
    (C : Crypto) (old new : Bytes) (datetime : Datetime) (first second : Run) (s : Pass)
    → ((s.table ≡ []) × (rotate_messages C old new datetime first second s ≡ (finished, s)))
      ⊎ (rotate_messages C old new datetime first second s
          ≡ both_passes C old new datetime first second s)
unfolding rotate_messages
rotate_messages-cases C old new datetime first second s = elim (List-cases s.table) [
  | inl e ↦ inl (e, ground (arith, e))
  | inr (r, rs, e) ↦ inr (ground (arith, e))
]

module _ (C : Crypto) (old new : Bytes) (run : Run) where
  -- What a message of the first pass does: nothing, or an update.
  pub rotate_one-cases :
      (k : ℕ) (m : StoredMessage) (b b' : Batch)
      → rotate_one C old new run k m b ≡ ok b'
      → ((b'.table ≡ b.table)
          × (rotate_row C old new (run.draw_content k m.id) (run.draw_calls k m.id) m ≡ ok none))
        ⊎ ((s : Sealed) × (b'.table ≡ update_row m.id s b.table)
            × (rotate_row C old new (run.draw_content k m.id) (run.draw_calls k m.id) m
                ≡ ok (some s)))
  unfolding rotate_one
  rotate_one-cases k m b b' h = elim (Bool-cases (run.live_row k m.id)) [
    | inr e ↦ absurd (ground (arith, h))
    | inl e ↦
        elim (Outcome-cases
          (rotate_row C old new (run.draw_content k m.id) (run.draw_calls k m.id) m)) [
            | inr (x, e1) ↦ absurd (ground (arith, h))
            | inl (change, e1) ↦ elim (Option-cases change) [
              | inl n ↦ inl (ground (arith, h), rw n at e1)
              | inr (s, j) ↦ elim (Bool-cases (run.updated k m.id)) [
                | inr e2 ↦ absurd (ground (arith, h))
                | inl e2 ↦ inr (s, ground (arith, h), rw j at e1)
              ]
            ]
          ]
  ]

  pub encrypt_one-cases :
      (k : ℕ) (m : StoredMessage) (t t' : Table)
      → encrypt_one C old new run k m t ≡ ok t'
      → (s : Sealed) × (t' ≡ update_row m.id s t)
        × (encrypt_row C old new (run.draw_content k m.id) (run.draw_calls k m.id) m ≡ ok s)
  unfolding encrypt_one
  encrypt_one-cases k m t t' h = elim (Bool-cases (run.live_row k m.id)) [
    | inr e ↦ absurd (ground (arith, h))
    | inl e ↦
        elim (Outcome-cases
          (encrypt_row C old new (run.draw_content k m.id) (run.draw_calls k m.id) m)) [
            | inr (x, e1) ↦ absurd (ground (arith, h))
            | inl (s, e1) ↦ elim (Bool-cases (run.updated k m.id)) [
              | inr e2 ↦ absurd (ground (arith, h))
              | inl e2 ↦ (s, ground (arith, h), e1)
            ]
          ]
  ]

  commit_rotated-next :
      (k : ℕ) (s s' : Pass) (m : StoredMessage) (ms : List StoredMessage)
      → commit_rotated C old new run k s m ms ≡ next s'
      → (b : Batch) × (each_row
            (rotate_one C old new run k)
            (m ∷ ms)
            (record { table = s.table; rotated = 0; skipped = 0 })
          ≡ ok b)
        × (s'.table ≡ b.table)
        × (s'.cursor ≡ some (cursor_of (last_of m ms)))
  unfolding commit_rotated
  commit_rotated-next k s s' m ms h = elim (Bool-cases (run.begun k)) [
    | inr e ↦ absurd (ground (arith, h))
    | inl e ↦
        elim (Outcome-cases (
          each_row (rotate_one C old new run k) (m ∷ ms)
            (record { table = s.table; rotated = 0; skipped = 0 }))) [
              | inr (x, e1) ↦ absurd (ground (arith, h))
              | inl (b, e1) ↦ elim (Bool-cases (run.committed k)) [
                | inr e2 ↦ absurd (ground (arith, h))
                | inl e2 ↦ (b, e1, ground (arith, h), ground (arith, h))
              ]
            ]
  ]

  -- A committed batch of the first pass.
  pub rotate_page-next :
      (datetime : Datetime) (k : ℕ) (s s' : Pass)
      → rotate_page C old new datetime run k s ≡ next s'
      → (m : StoredMessage) × (ms : List StoredMessage) × (b : Batch) × (select_rows true
            (after datetime s.cursor)
            s.table
          ≡ m ∷ ms)
        × (each_row
              (rotate_one C old new run k)
              (m ∷ ms)
              (record { table = s.table; rotated = 0; skipped = 0 })
            ≡ ok b)
        × (s'.table ≡ b.table)
        × (s'.cursor ≡ some (cursor_of (last_of m ms)))
  unfolding rotate_page
  rotate_page-next datetime k s s' h = elim (Bool-cases (run.live k)) [
    | inr e ↦ absurd (ground (arith, h))
    | inl e ↦ elim (Bool-cases (run.queried k)) [
      | inr e1 ↦ absurd (ground (arith, h))
      | inl e1 ↦ elim (List-cases (select_rows true (after datetime s.cursor) s.table)) [
        | inl e2 ↦ absurd (ground (arith, h))
        | inr (m, ms, e2) ↦
            let (b, steps, table, cursor) = commit_rotated-next k s s' m ms (ground (arith, h)) in
            (m, ms, b, e2, steps, table, cursor)
      ]
    ]
  ]

  -- The first pass ends with no message after the cursor, the second with no plaintext.
  pub rotate_page-done :
      (datetime : Datetime) (k : ℕ) (s : Pass)
      → rotate_page C old new datetime run k s ≡ done
      → select_rows true (after datetime s.cursor) s.table ≡ []
  unfolding rotate_page commit_rotated
  rotate_page-done datetime k s h =
      elim (List-cases (select_rows true (after datetime s.cursor) s.table)) [
        | inl e ↦ e
        | inr (m, ms, e) ↦ absurd (ground (arith, h))
      ]

  pub encrypt_page-done :
      (k : ℕ) (s : Pass)
      → encrypt_page C old new run k s ≡ done
      → select_rows false (λ m. true) s.table ≡ []
  unfolding encrypt_page commit_encrypted
  encrypt_page-done k s h = elim (List-cases (select_rows false (λ m. true) s.table)) [
    | inl e ↦ e
    | inr (m, ms, e) ↦ absurd (ground (arith, h))
  ]

  commit_encrypted-next :
      (k : ℕ) (s s' : Pass) (ms : List StoredMessage)
      → commit_encrypted C old new run k s ms ≡ next s'
      → (t : Table) × (each_row (encrypt_one C old new run k) ms s.table ≡ ok t) × (s'.table ≡ t)
  unfolding commit_encrypted
  commit_encrypted-next k s s' ms h = elim (Bool-cases (run.begun k)) [
    | inr e ↦ absurd (ground (arith, h))
    | inl e ↦ elim (Outcome-cases (each_row (encrypt_one C old new run k) ms s.table)) [
      | inr (x, e1) ↦ absurd (ground (arith, h))
      | inl (t, e1) ↦ elim (Bool-cases (run.committed k)) [
        | inr e2 ↦ absurd (ground (arith, h))
        | inl e2 ↦ (t, e1, ground (arith, h))
      ]
    ]
  ]

  -- A committed batch of the second pass.
  pub encrypt_page-next :
      (k : ℕ) (s s' : Pass)
      → encrypt_page C old new run k s ≡ next s'
      → (m : StoredMessage) × (ms : List StoredMessage) × (t : Table) × (select_rows false
            (λ m. true)
            s.table
          ≡ m ∷ ms)
        × (each_row (encrypt_one C old new run k) (m ∷ ms) s.table ≡ ok t)
        × (s'.table ≡ t)
  unfolding encrypt_page
  encrypt_page-next k s s' h = elim (Bool-cases (run.live k)) [
    | inr e ↦ absurd (ground (arith, h))
    | inl e ↦ elim (Bool-cases (run.queried k)) [
      | inr e1 ↦ absurd (ground (arith, h))
      | inl e1 ↦ elim (List-cases (select_rows false (λ m. true) s.table)) [
        | inl e2 ↦ absurd (ground (arith, h))
        | inr (m, ms, e2) ↦
            let (t, steps, table) = commit_encrypted-next k s s' (m ∷ ms) (ground (arith, h)) in
            (m, ms, t, e2, steps, table)
      ]
    ]
  ]
