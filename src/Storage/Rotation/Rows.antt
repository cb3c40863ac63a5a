-- ===== src/Storage/Rotation/Rows.antt =====
-- What the rotation of one row does to the message in it.
use gogoclaw.Base.{
  ◌≡◌, refl, sym, subst, ◌∙◌, inl, inr, arith, true, Option, none, some, [], ◌∷◌, Bool-cases,
  Option-cases,
}
use gogoclaw.Base.Bytes.{Bytes}
use gogoclaw.Base.Outcome.{ok, Outcome-cases}
use gogoclaw.Storage.Encryption.{Crypto, IsSound, decrypt}
use gogoclaw.Storage.Messages.{StoredMessage, seal_text, seal_calls, open_text, open_calls}
use gogoclaw.Storage.Messages.Laws.{open_calls-nonempty}
use gogoclaw.Storage.Rotation.{
  try_both_keys, try_calls, seal_opened, re_encrypt, rotate_row, encrypt_row,
}
use gogoclaw.Storage.Rotation.Statements.{
  KeyName, old_key, new_key, Opened, Sealed, row_aad, is_consistent, same_name,
}
use gogoclaw.Storage.Rotation.Sealing.{
  IsDrawn, KeyName-cases, lift-ok, open_text-decrypt, same_name_lem, seal_calls-open_calls,
  seal_text-open_text, text_of,
}

module _ (C : Crypto) (old new : Bytes) where
  abbrev key_of : KeyName → Bytes
  key_of old_key = old
  key_of new_key = new

  try_both_keys-open_text :
      (text aad id : Bytes) (o : Opened)
      → try_both_keys C old new text aad id ≡ ok o
      → open_text C (key_of o.key) aad text ≡ ok o.text
  unfolding try_both_keys open_text
  try_both_keys-open_text text aad id o h = elim (Option-cases (C.decode text)) [
    | inl e ↦ absurd (ground (arith, h))
    | inr (ct, e) ↦ elim (Outcome-cases (decrypt C old ct aad)) [
      | inl (p, e1) ↦
          let same : o ≡ record { key = old_key; text = p } = ground (arith, h) in
          subst (λ (x : Opened). open_text C (key_of x.key) aad text ≡ ok x.text) (sym same)
            (open_text-decrypt C old aad text ct p e e1)
      | inr (x, e1) ↦ elim (Outcome-cases (decrypt C new ct aad)) [
        | inl (p, e2) ↦
            let same : o ≡ record { key = new_key; text = p } = ground (arith, h) in
            subst (λ (x : Opened). open_text C (key_of x.key) aad text ≡ ok x.text) (sym same)
              (open_text-decrypt C new aad text ct p e e2)
        | inr (y, e2) ↦ absurd (ground (arith, h))
      ]
    ]
  ]

  -- What `try_calls` found: no tool calls, or a key that opens them.
  abbrev Calls : Bytes → Bytes → Option Opened → Type 0
  Calls aad text none = text ≡ []
  Calls aad text (some o) = open_calls C (key_of o.key) aad text ≡ ok o.text

  try_calls-Calls :
      (text aad id : Bytes) (o : Option Opened)
      → try_calls C old new text aad id ≡ ok o
      → Calls aad text o
  unfolding try_calls open_calls
  try_calls-Calls [] aad id o h = let e : o ≡ none = ground (arith, h) in rw e refl
  try_calls-Calls (c ∷ cs) aad id o h =
      elim (Outcome-cases (try_both_keys C old new (c ∷ cs) aad id)) [
        | inr (x, e) ↦ absurd (ground (arith, h))
        | inl (p, e) ↦
            let same : o ≡ some p = ground (arith, h) in
            rw same (try_both_keys-open_text (c ∷ cs) aad id p e)
      ]

  Calls-open_calls :
      (content : Opened) (calls : Option Opened) (aad text : Bytes)
      → is_consistent content calls ≡ true
      → Calls aad text calls
      → open_calls C (key_of content.key) aad text ≡ ok (text_of calls)
  unfolding is_consistent open_calls
  Calls-open_calls content none aad text same e = rw (e, open_calls) refl
  Calls-open_calls content (some o) aad text same e =
      rw (sym (same_name_lem content.key o.key same)) e

  -- The content and the tool calls of a message open with a key, as two texts.
  abbrev pub OpensAs : Bytes → StoredMessage → Bytes → Bytes → Type 0
  OpensAs key m c t =
      (open_text C key (row_aad m) m.content ≡ ok c)
      × (open_calls C key (row_aad m) m.tool_calls ≡ ok t)

  -- What is written over a row has under the new key what the row had under the old one.
  abbrev pub Resealed : StoredMessage → Option Sealed → Type 0
  Resealed m none = (c : Bytes) × (t : Bytes) × OpensAs new m c t
  Resealed m (some s) =
      (c : Bytes) × (t : Bytes) × OpensAs old m c t
      × OpensAs new (record m { content = s.content; tool_calls = s.tool_calls }) c t

  module _ (sound : IsSound C) where
    seal_opened-open_calls :
        (drawn : Option Bytes) (aad : Bytes) (calls : Option Opened) (ct : Bytes)
        → IsDrawn drawn
        → seal_opened C old new drawn aad calls ≡ ok ct
        → open_calls C new aad ct ≡ ok (text_of calls)
    unfolding seal_opened open_calls
    seal_opened-open_calls drawn aad none ct d h =
        let e : ct ≡ [] = ground (arith, h) in rw (e, open_calls) refl
    seal_opened-open_calls drawn aad (some o) ct d h =
        let opens = seal_text-open_text C sound new drawn aad o.text ct d (lift-ok _ ct h) in
        open_calls-nonempty C new aad ct opens.1 ∙ opens.0

    re_encrypt-Resealed :
        (n1 n2 : Option Bytes) (m : StoredMessage) (content : Opened) (calls : Option Opened)
        (r : Option Sealed)
        → IsDrawn n1
        → IsDrawn n2
        → open_text C (key_of content.key) (row_aad m) m.content ≡ ok content.text
        → Calls (row_aad m) m.tool_calls calls
        → is_consistent content calls ≡ true
        → re_encrypt C old new n1 n2 m content calls ≡ ok r
        → Resealed m r
    unfolding is_consistent same_name re_encrypt open_calls
    re_encrypt-Resealed n1 n2 m content calls r d1 d2 opens found same h =
        elim (KeyName-cases content.key) [
          | inr e ↦
              let is : r ≡ none = ground (arith, h, e) in
              rw is (content.text, text_of calls, ((rw e at opens), (rw e at all)))
          | inl e ↦ elim (Outcome-cases (seal_text C new n1 (row_aad m) content.text)) [
            | inr (x, e1) ↦ absurd (ground (arith, h, e))
            | inl (c, e1) ↦ elim (Outcome-cases (seal_opened C old new n2 (row_aad m) calls)) [
              | inr (x, e2) ↦ absurd (ground (arith, h, e))
              | inl (t, e2) ↦
                  let is : r ≡ some (record { content = c; tool_calls = t }) =
                    ground (arith, h, e) in
                  rw is (
                    content.text,
                    text_of calls,
                    ((rw e at opens), (rw e at all)),
                    (
                      (seal_text-open_text C sound new n1 (row_aad m) content.text c d1 e1).0,
                      seal_opened-open_calls n2 (row_aad m) calls t d2 e2,
                    ),
                  )
            ]
          ]
        ]
      where
        all : open_calls C (key_of content.key) (row_aad m) m.tool_calls ≡ ok (text_of calls)
        all = Calls-open_calls content calls (row_aad m) m.tool_calls same found

    pub rotate_row-Resealed :
        (n1 n2 : Option Bytes) (m : StoredMessage) (r : Option Sealed)
        → IsDrawn n1
        → IsDrawn n2
        → rotate_row C old new n1 n2 m ≡ ok r
        → Resealed m r
    unfolding rotate_row
    rotate_row-Resealed n1 n2 m r d1 d2 h =
        elim (Outcome-cases (try_both_keys C old new m.content (row_aad m) m.id)) [
          | inr (x, e) ↦ absurd (ground (arith, h))
          | inl (o, e) ↦ elim (Outcome-cases (try_calls C old new m.tool_calls (row_aad m) m.id)) [
            | inr (x, e1) ↦ absurd (ground (arith, h))
            | inl (calls, e1) ↦ elim (Bool-cases (is_consistent o calls)) [
              | inr bad ↦ absurd (ground (arith, h))
              | inl same ↦
                  re_encrypt-Resealed n1 n2 m o calls r d1 d2
                    (try_both_keys-open_text m.content (row_aad m) m.id o e)
                    (try_calls-Calls m.tool_calls (row_aad m) m.id calls e1) same
                    (ground (arith, h))
            ]
          ]
        ]

    -- A plaintext row is overwritten with what the new key opens as it was.
    pub encrypt_row-OpensAs :
        (n1 n2 : Option Bytes) (m : StoredMessage) (s : Sealed)
        → IsDrawn n1
        → IsDrawn n2
        → encrypt_row C old new n1 n2 m ≡ ok s
        → OpensAs new
            (record m { content = s.content; tool_calls = s.tool_calls })
            m.content
            m.tool_calls
    unfolding encrypt_row
    encrypt_row-OpensAs n1 n2 m s d1 d2 h =
        elim (Outcome-cases (seal_text C new n1 (row_aad m) m.content)) [
          | inr (x, e) ↦ absurd (ground (arith, h))
          | inl (c, e) ↦ elim (Outcome-cases (seal_calls C new n2 (row_aad m) m.tool_calls)) [
            | inr (x, e1) ↦ absurd (ground (arith, h))
            | inl (t, e1) ↦
                let is : s ≡ record { content = c; tool_calls = t } = ground (arith, h) in
                rw is (
                  (seal_text-open_text C sound new n1 (row_aad m) m.content c d1 e).0,
                  seal_calls-open_calls C sound new n2 (row_aad m) m.tool_calls t d2 e1,
                )
          ]
        ]
