-- ===== src/Storage/Encryption.antt =====
-- internal/storage/encryption.go. AES-GCM, base64 and the random nonces are parameters.
pub mod Aad
use gogoclaw.Base.{
  ℕ, ◌==◌, ltb, Bool, true, false, if◌then◌else◌, Option, none, some, List, [], ◌∷◌, ◌++◌, length,
  take, drop, ◌≡◌, ◌≢◌,
}
use gogoclaw.Base.Bytes.{Bytes, bytes_eq}
use gogoclaw.Base.Outcome.{Outcome, ok, err}

-- `accepts` says whether `aes.NewCipher` takes a key; `seal` and `unseal` are the cipher's `Seal`
-- and `Open` at a key, a nonce, a text and additional data; `encode` and `decode` are base64.
pub record Crypto : Type 0 where
  pub accepts : Bytes → Bool
  pub seal : Bytes → Bytes → Bytes → Bytes → Bytes
  pub unseal : Bytes → Bytes → Bytes → Bytes → Option Bytes
  pub encode : Bytes → Bytes
  pub decode : Bytes → Option Bytes

-- What is relied on: what was sealed can be opened with the same key, nonce and data, and base64
-- can be decoded and is empty for no bytes only.
pub record IsSound (C : Crypto) : Type 0 where
  pub unseal-seal :
      (key nonce plaintext aad : Bytes)
      → C.unseal key nonce (C.seal key nonce plaintext aad) aad ≡ some plaintext
  pub decode-encode : (xs : Bytes) → C.decode (C.encode xs) ≡ some xs
  pub encode_nonempty : (x : ℕ) (xs : Bytes) → C.encode (x ∷ xs) ≢ []

pub data CryptoError : Type 0 where
  bad_key no_random too_short not_authentic bad_encoding : CryptoError

abbrev pub key_bytes : ℕ
key_bytes = 32

abbrev pub nonce_bytes : ℕ
nonce_bytes = 12

-- An `Encryptor` is its key.
unfoldable pub new_encryptor_from_key : Bytes → Outcome CryptoError Bytes
new_encryptor_from_key key = if length key == key_bytes then ok key else err bad_key

-- `KeyEquals`, with `none` for a nil encryptor.
unfoldable pub key_equals : Option Bytes → Option Bytes → Bool
unfolding bytes_eq
key_equals none other = false
key_equals (some key) none = false
key_equals (some key) (some other) = bytes_eq key other

-- `BuildMessageAAD`
unfoldable pub build_message_aad : Bytes → Bytes → Bytes → Bytes
build_message_aad id conversation role = id ++ (0 ∷ (conversation ++ (0 ∷ role)))

module _ (C : Crypto) where
  -- `Encrypt`; the random nonce is the argument, `none` if it cannot be read.
  unfoldable pub encrypt : Bytes → Option Bytes → Bytes → Bytes → Outcome CryptoError Bytes
  encrypt key drawn plaintext aad =
      if C.accepts key
      then (elim drawn [ none ↦ err no_random | some n ↦ ok (n ++ C.seal key n plaintext aad) ])
      else err bad_key

  unfoldable pub decrypt : Bytes → Bytes → Bytes → Outcome CryptoError Bytes
  decrypt key ciphertext aad =
      if ltb (length ciphertext) nonce_bytes
      then err too_short
      else if C.accepts key
      then (elim (C.unseal key (take nonce_bytes ciphertext) (drop nonce_bytes ciphertext) aad) [
        | some plaintext ↦ ok plaintext
        | none ↦ err not_authentic
      ])
      else err bad_key
