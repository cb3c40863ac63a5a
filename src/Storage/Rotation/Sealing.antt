-- ===== src/Storage/Rotation/Sealing.antt =====
-- What is sealed with a key is opened with it, and what the names of the keys say.
use gogoclaw.Base.{
  ◌⊎◌, ◌≡◌, ◌≢◌, refl, ◌∙◌, inl, inr, arith, true, Option, none, some, [], ◌∷◌, length, Bool-cases,
  Option-cases,
}
use gogoclaw.Base.Bytes.{Bytes}
use gogoclaw.Base.Outcome.{Outcome, ok, err}
use gogoclaw.Storage.Encryption.{Crypto, IsSound, encrypt, decrypt}
use gogoclaw.Storage.Messages.{StorageError, seal_text, seal_calls, open_text, open_calls}
use gogoclaw.Storage.Messages.Laws.{open_text-encode, sealed_nonempty, open_calls-nonempty, sealed}
use gogoclaw.Storage.Rotation.Statements.{KeyName, old_key, new_key, Opened, lift, same_name}

-- A nonce, if one is drawn, has twelve bytes.
abbrev pub IsDrawn : Option Bytes → Type 0
IsDrawn none = Unit {0}
IsDrawn (some n) = length n ≡ 12

-- No text can be opened with both keys.
abbrev pub IsSeparate : Crypto → Bytes → Bytes → Type 0
IsSeparate C old new =
    (aad text p q : Bytes) → open_text C old aad text ≡ ok p → open_text C new aad text ≡ ok q → ⊥

module _ (C : Crypto) (sound : IsSound C) (new : Bytes) where
  -- What was sealed can be opened, and is not empty.
  pub seal_text-open_text :
      (drawn : Option Bytes) (aad text ct : Bytes)
      → IsDrawn drawn
      → seal_text C new drawn aad text ≡ ok ct
      → (open_text C new aad ct ≡ ok text) × (ct ≢ [])
  unfolding seal_text encrypt
  seal_text-open_text drawn aad text ct d h = elim (Bool-cases (C.accepts new)) [
    | inr bad ↦ absurd (ground (arith, h))
    | inl fits ↦ elim (Option-cases drawn) [
      | inl e ↦ absurd (ground (arith, h))
      | inr (n, e) ↦
          let len : length n ≡ 12 = rw e at d in
          let same : ct ≡ C.encode (sealed C sound new fits n aad text) = ground (arith, h) in
          rw same (
            open_text-encode C sound new fits n aad text len,
            sealed_nonempty C sound new fits n aad text len,
          )
    ]
  ]

  pub seal_calls-open_calls :
      (drawn : Option Bytes) (aad calls ct : Bytes)
      → IsDrawn drawn
      → seal_calls C new drawn aad calls ≡ ok ct
      → open_calls C new aad ct ≡ ok calls
  unfolding seal_calls open_calls
  seal_calls-open_calls drawn aad [] ct d h =
      let e : ct ≡ [] = ground (arith, h) in rw (e, open_calls) refl
  seal_calls-open_calls drawn aad (c ∷ cs) ct d h =
      let (opens, ne) = seal_text-open_text drawn aad (c ∷ cs) ct d h in
      open_calls-nonempty C new aad ct ne ∙ opens

pub open_text-decrypt :
    (C : Crypto) (key aad text ct p : Bytes)
    → C.decode text ≡ some ct
    → decrypt C key ct aad ≡ ok p
    → open_text C key aad text ≡ ok p
unfolding open_text
open_text-decrypt C key aad text ct p e1 e2 = rw (e1, open_text, e2) refl

pub lift-ok : {A : Type 0} (o : Outcome StorageError A) (a : A) → lift o ≡ ok a → o ≡ ok a
lift-ok (ok x) a h = ground (arith, h)
lift-ok (err e) a h = absurd (ground (arith, h))

pub KeyName-cases : (k : KeyName) → (k ≡ old_key) ⊎ (k ≡ new_key)
KeyName-cases old_key = inl refl
KeyName-cases new_key = inr refl

pub same_name_lem : (j k : KeyName) → same_name j k ≡ true → k ≡ j
unfolding same_name
same_name_lem old_key old_key h = refl
same_name_lem new_key new_key h = refl
same_name_lem old_key new_key h = ground (arith, h)
same_name_lem new_key old_key h = ground (arith, h)

abbrev pub text_of : Option Opened → Bytes
text_of none = []
text_of (some o) = o.text
