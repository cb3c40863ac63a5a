-- ===== src/Storage/Messages/Laws.antt =====
-- What is stored can be read again.
use gogoclaw.Base.{
  zero, suc, ltb, length-append, ℕ, ◌≡◌, ◌≢◌, refl, ap, ◌∙◌, arith, true, false, Option, some, [],
  ◌∷◌, ◌++◌, length, take, drop,
}
use gogoclaw.Base.Bytes.{Bytes}
use gogoclaw.Base.Outcome.{ok}
use gogoclaw.Storage.Encryption.{Crypto, IsSound, encrypt, decrypt, build_message_aad}
use gogoclaw.Storage.Messages.{
  StoredMessage, Row, Scrubber, scrubbed, seal_text, seal_calls, open_text, open_calls, store_row,
  load_row,
}

take_prefix : (n : ℕ) (xs ys : Bytes) → length xs ≡ n → take n (xs ++ ys) ≡ xs
take_prefix zero [] ys e = refl
take_prefix zero (x ∷ xs) ys e = absurd (omega arith)
take_prefix (suc n) [] ys e = absurd (omega arith)
take_prefix (suc n) (x ∷ xs) ys e = ap (◌∷◌ x) (take_prefix n xs ys (omega arith))

drop_prefix : (n : ℕ) (xs ys : Bytes) → length xs ≡ n → drop n (xs ++ ys) ≡ ys
drop_prefix zero [] ys e = refl
drop_prefix zero (x ∷ xs) ys e = absurd (omega arith)
drop_prefix (suc n) [] ys e = absurd (omega arith)
drop_prefix (suc n) (x ∷ xs) ys e = drop_prefix n xs ys (omega arith)

pub open_calls-nonempty :
    (C : Crypto) (key aad text : Bytes)
    → text ≢ []
    → open_calls C key aad text ≡ open_text C key aad text
unfolding open_calls
open_calls-nonempty C key aad [] ne = absurd (ne refl)
open_calls-nonempty C key aad (c ∷ cs) ne = refl

module _ (C : Crypto) (sound : IsSound C) (key : Bytes) (fits : C.accepts key ≡ true) where
  abbrev pub sealed : Bytes → Bytes → Bytes → Bytes
  sealed nonce aad text = nonce ++ C.seal key nonce text aad

  decrypt-sealed :
      (nonce aad text : Bytes)
      → length nonce ≡ 12
      → decrypt C key (sealed nonce aad text) aad ≡ ok text
  unfolding decrypt
  decrypt-sealed nonce aad text len =
      let ct = C.seal key nonce text aad in
      rw
        (
          long,
          fits,
          take_prefix 12 nonce ct len,
          drop_prefix 12 nonce ct len,
          sound.unseal-seal key nonce text aad,
        )
        refl
    where
      long : ltb (length (sealed nonce aad text)) 12 ≡ false
      long = ground (arith, length-append nonce (C.seal key nonce text aad))

  pub open_text-encode :
      (nonce aad text : Bytes)
      → length nonce ≡ 12
      → open_text C key aad (C.encode (sealed nonce aad text)) ≡ ok text
  unfolding open_text
  open_text-encode nonce aad text len =
      rw (sound.decode-encode (sealed nonce aad text), open_text, decrypt-sealed nonce aad text len)
        refl

  seal_text_lem :
      (nonce aad text : Bytes)
      → seal_text C key (some nonce) aad text ≡ ok (C.encode (sealed nonce aad text))
  unfolding seal_text encrypt
  seal_text_lem nonce aad text = rw fits refl

  pub sealed_nonempty :
      (nonce aad text : Bytes) → length nonce ≡ 12 → C.encode (sealed nonce aad text) ≢ []
  sealed_nonempty [] aad text len = absurd (omega arith)
  sealed_nonempty (n ∷ ns) aad text len =
      sound.encode_nonempty n (ns ++ C.seal key (n ∷ ns) text aad)

  seal_calls-open_calls :
      (nonce aad calls : Bytes)
      → length nonce ≡ 12
      → (text : Bytes) × (seal_calls C key (some nonce) aad calls ≡ ok text)
        × (open_calls C key aad text ≡ ok calls)
  unfolding seal_calls open_calls
  seal_calls-open_calls nonce aad [] len = ([], refl, refl)
  seal_calls-open_calls nonce aad (c ∷ cs) len =
      let text = C.encode (sealed nonce aad (c ∷ cs)) in
      (
        text,
        seal_text_lem nonce aad (c ∷ cs),
        open_calls-nonempty C key aad text (sealed_nonempty nonce aad (c ∷ cs) len)
            ∙ open_text-encode nonce aad (c ∷ cs) len,
      )

  -- With a sound cipher that accepts the key, and nonces of twelve bytes, a message stored with a
  -- key is read back with the same key as it was given, but for its
  -- content, which is as the scrubber left it, whatever random nonces are drawn.
  pub load_row-store_row :
      (scrubber : Option Scrubber) (n1 n2 : Bytes) (m : StoredMessage)
      → length n1 ≡ 12
      → length n2 ≡ 12
      → (row : Row) × (store_row C (some key) scrubber (some n1) (some n2) m ≡ ok row)
        × (row.encrypted ≡ true)
        × (load_row C (some key) row ≡ ok (record m { content = scrubbed scrubber m.content }))
  unfolding store_row load_row
  load_row-store_row scrubber n1 n2 m len1 len2 =
      let aad = build_message_aad m.id m.conversation_id m.role in
      let (calls, stored, loaded) = seal_calls-open_calls n2 aad m.tool_calls len2 in
      let text = C.encode (sealed n1 aad (scrubbed scrubber m.content)) in
      (
        record { message = record m { content = text; tool_calls = calls }; encrypted = true },
        rw (seal_text_lem n1 aad (scrubbed scrubber m.content), stored) refl,
        refl,
        rw (open_text-encode n1 aad (scrubbed scrubber m.content) len1, loaded) refl,
      )
