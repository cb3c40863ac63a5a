-- ===== src/Storage/Rotation/Kept.antt =====
-- What a pass keeps of a row.
use gogoclaw.Base.{
  ◌⊎◌, ◌≡◌, refl, sym, ap, ◌∙◌, inl, inr, arith, true, false, Option, none, some, [],
}
use gogoclaw.Base.Bytes.{Bytes}
use gogoclaw.Base.Outcome.{ok, Outcome-cases}
use gogoclaw.Storage.Encryption.{Crypto, IsSound}
use gogoclaw.Storage.Messages.{StoredMessage, Row, open_text, open_calls, open_encrypted, load_row}
use gogoclaw.Storage.Rotation.{rotate_row, encrypt_row}
use gogoclaw.Storage.Rotation.Statements.{Sealed, row_aad, overwrite}
use gogoclaw.Storage.Rotation.Rows.{OpensAs, rotate_row-Resealed, encrypt_row-OpensAs}
use gogoclaw.Storage.Rotation.Sealing.{IsDrawn, IsSeparate}

module _ (C : Crypto) (old new : Bytes) where
  -- The rows differ in the content, the tool calls and the flag at most, and what a key read the
  -- old or the new key reads.
  pub record IsKept (r r' : Row) : Type 0 where
    pub others : (s : Sealed) → overwrite s r' ≡ overwrite s r
    pub stays_encrypted : r.encrypted ≡ true → r'.encrypted ≡ true
    pub old_reads :
        (m : StoredMessage)
        → load_row C (some old) r ≡ ok m
        → (load_row C (some old) r' ≡ ok m) ⊎ (load_row C (some new) r' ≡ ok m)
    pub new_reads :
        (m : StoredMessage) → load_row C (some new) r ≡ ok m → load_row C (some new) r' ≡ ok m

  pub IsKept-refl : (r : Row) → IsKept r r
  IsKept-refl r = record {
    others = λ s. refl;
    stays_encrypted = λ h. h;
    old_reads = λ m h. inl h;
    new_reads = λ m h. h;
  }

  pub IsKept-trans : (r1 r2 r3 : Row) → IsKept r1 r2 → IsKept r2 r3 → IsKept r1 r3
  IsKept-trans r1 r2 r3 a b = record {
    others = λ s. b.others s ∙ a.others s;
    stays_encrypted = λ h. b.stays_encrypted (a.stays_encrypted h);
    old_reads =
        λ m h. elim (a.old_reads m h) [ inl e ↦ b.old_reads m e | inr e ↦ inr (b.new_reads m e) ];
    new_reads = λ m h. b.new_reads m (a.new_reads m h);
  }

  pub IsKept-id : (r r' : Row) → IsKept r r' → r'.message.id ≡ r.message.id
  IsKept-id r r' k =
      ap (λ (x : Row). x.message.id) (k.others (record { content = []; tool_calls = [] }))

  abbrev pub IsUnderNew : Row → Type 0
  IsUnderNew r = (m : StoredMessage) × (load_row C (some new) r ≡ ok m)

  -- A row as it was, and under the new key with everything that a key read of it.
  pub record IsMoved (x y : Row) : Type 0 where
    pub is_encrypted : y.encrypted ≡ true
    pub reads :
        (m : StoredMessage)
        → (load_row C (some old) x ≡ ok m) ⊎ (load_row C (some new) x ≡ ok m)
        → load_row C (some new) y ≡ ok m

  OpensAs-load_row :
      (key : Bytes) (r : Row) (c t : Bytes)
      → r.encrypted ≡ true
      → OpensAs C old new key r.message c t
      → load_row C (some key) r ≡ ok (record r.message { content = c; tool_calls = t })
  unfolding load_row open_encrypted
  OpensAs-load_row key r c t e (opens, calls) = rw (e, load_row, open_encrypted, opens, calls) refl

  pub load_row-OpensAs :
      (key : Bytes) (r : Row) (m : StoredMessage)
      → r.encrypted ≡ true
      → load_row C (some key) r ≡ ok m
      → (c : Bytes) × (t : Bytes) × OpensAs C old new key r.message c t
  unfolding load_row open_encrypted
  load_row-OpensAs key r m e h =
      elim (Outcome-cases (open_text C key (row_aad r.message) r.message.content)) [
        | inr (x, e1) ↦ absurd (ground (arith, h))
        | inl (c, e1) ↦
            elim (Outcome-cases (open_calls C key (row_aad r.message) r.message.tool_calls)) [
              | inr (x, e2) ↦ absurd (ground (arith, h))
              | inl (t, e2) ↦ (c, t, (e1, e2))
            ]
      ]

  -- An encrypted row that is overwritten with what the new key opens as the old key opened it.
  overwrite-IsKept :
      IsSeparate C old new
      → (r : Row) (s : Sealed) (c t : Bytes) → r.encrypted ≡ true
      → OpensAs C old new old r.message c t
      → OpensAs C old new new (overwrite s r).message c t
      → IsKept r (overwrite s r) × IsUnderNew (overwrite s r)
  overwrite-IsKept separate r s c t e before now = (
    record {
      others = λ s'. refl;
      stays_encrypted = λ h. refl;
      old_reads = λ m h. inr (under ∙ sym (OpensAs-load_row old r c t e before) ∙ h);
      new_reads = λ m h.
          let (c', t', opens) = load_row-OpensAs new r m e h in
          absurd (separate (row_aad r.message) r.message.content c c' before.0 opens.0);
    },
    (record r.message { content = c; tool_calls = t }, under),
  )
    where
      under :
          load_row C (some new) (overwrite s r)
          ≡ ok (record r.message { content = c; tool_calls = t })
      under = OpensAs-load_row new (overwrite s r) c t refl now

  pub load_row-plain :
      (key : Option Bytes) (r : Row) → r.encrypted ≡ false → load_row C key r ≡ ok r.message
  unfolding load_row
  load_row-plain key r e = rw (e, load_row) refl

  -- A plaintext row that is overwritten with what the new key opens as it was.
  encrypt-IsKept :
      (r : Row) (s : Sealed)
      → r.encrypted ≡ false
      → OpensAs C old new new (overwrite s r).message r.message.content r.message.tool_calls
      → IsKept r (overwrite s r)
  encrypt-IsKept r s e now = record {
    others = λ s'. refl;
    stays_encrypted = λ h. refl;
    old_reads = λ m h. inr (under ∙ sym (load_row-plain (some old) r e) ∙ h);
    new_reads = λ m h. under ∙ sym (load_row-plain (some new) r e) ∙ h;
  }
    where
      under : load_row C (some new) (overwrite s r) ≡ ok r.message
      under = OpensAs-load_row new (overwrite s r) r.message.content r.message.tool_calls refl now

  module _ (sound : IsSound C) (n1 n2 : Option Bytes) (d1 : IsDrawn n1) (d2 : IsDrawn n2) where
    pub rotate_row-IsKept :
        (separate : IsSeparate C old new) (r : Row) (s : Sealed)
        → r.encrypted ≡ true
        → rotate_row C old new n1 n2 r.message ≡ ok (some s)
        → IsKept r (overwrite s r) × IsUnderNew (overwrite s r)
    rotate_row-IsKept separate r s e h =
        let (c, t, before, now) =
          rotate_row-Resealed C old new sound n1 n2 r.message (some s) d1 d2 h in
        overwrite-IsKept separate r s c t e before now

    -- A row that is passed over is under the new key.
    pub rotate_row-IsUnderNew :
        (r : Row)
        → r.encrypted ≡ true
        → rotate_row C old new n1 n2 r.message ≡ ok none
        → IsUnderNew r
    rotate_row-IsUnderNew r e h =
        let (c, t, now) = rotate_row-Resealed C old new sound n1 n2 r.message none d1 d2 h in
        (record r.message { content = c; tool_calls = t }, OpensAs-load_row new r c t e now)

    pub encrypt_row-IsKept :
        (r : Row) (s : Sealed)
        → r.encrypted ≡ false
        → encrypt_row C old new n1 n2 r.message ≡ ok s
        → IsKept r (overwrite s r)
    encrypt_row-IsKept r s e h =
        encrypt-IsKept r s e (encrypt_row-OpensAs C old new sound n1 n2 r.message s d1 d2 h)
