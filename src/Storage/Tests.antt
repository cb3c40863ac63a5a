-- ===== src/Storage/Tests.antt =====
-- A cipher that seals nothing, and a message.
use gogoclaw.Base.{◌≡◌, refl, arith, true, Option, none, some, [], ◌∷◌}
use gogoclaw.Base.Bytes.{Bytes, bytes}
use gogoclaw.Base.Outcome.{ok}
use gogoclaw.Storage.Encryption.{Crypto, IsSound}
use gogoclaw.Storage.Encryption.Aad.{build_message_aad_injective}
use gogoclaw.Storage.Messages.{StoredMessage, Row, Scrubber, scrubbed, store_row, load_row}
use gogoclaw.Storage.Messages.Laws.{load_row-store_row}

abbrev marked : Bytes → Option Bytes
marked [] = none
marked (b ∷ bs) = some bs

abbrev plain : Crypto
plain = record {
  accepts = λ key. true;
  seal = λ key nonce text aad. text;
  unseal = λ key nonce text aad. some text;
  encode = λ xs. 1 ∷ xs;
  decode = marked;
}

plain-IsSound : IsSound plain
plain-IsSound = record {
  unseal-seal = λ key nonce text aad. refl;
  decode-encode = λ xs. refl;
  encode_nonempty = λ x xs e. cc;
}

abbrev nonce : Bytes
nonce = bytes "abcdefghijkl"

abbrev stored : StoredMessage
stored = record {
  id = bytes "m1";
  conversation_id = bytes "c1";
  role = bytes "user";
  content = bytes "the key is hunter2";
  tool_calls = [];
  tool_call_id = [];
  token_count = 0;
  created_at = 7;
}

abbrev scrubber : Scrubber
scrubber = record { scrub = λ text. bytes "[REDACTED]"; has_secrets = λ text. true }

load_row-store_row_example :
    (row : Row) × (store_row plain
        (some (bytes "key"))
        (some scrubber)
        (some nonce)
        (some nonce)
        stored
      ≡ ok row)
    × (row.encrypted ≡ true)
    × (load_row plain (some (bytes "key")) row
        ≡ ok (record stored { content = scrubbed (some scrubber) stored.content }))
load_row-store_row_example =
    load_row-store_row plain plain-IsSound (bytes "key") refl (some scrubber) nonce nonce stored
      (omega arith) (omega arith)

build_message_aad_injective_example :
    (bytes "m" ≡ bytes "m") × (bytes "c" ≡ bytes "c") × (bytes "user" ≡ bytes "user")
build_message_aad_injective_example =
    build_message_aad_injective (bytes "m") (bytes "m") (bytes "c") (bytes "c") (bytes "user")
      (bytes "user") (omega arith, tt) (omega arith, tt) (omega arith, tt) (omega arith, tt) refl
