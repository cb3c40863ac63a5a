-- ===== src/App/KeyFiles/Tests.antt =====
-- A generated key takes the place of another, and of a passphrase.
use gogoclaw.Base.{◌≡◌, refl, arith, true, false, Option, none, some, [], ◌∷◌, ◌++◌}
use gogoclaw.Base.Bytes.{Bytes, bytes}
use gogoclaw.Base.Outcome.{ok, err}
use gogoclaw.Storage.Encryption.{Crypto, IsSound, new_encryptor_from_key}
use gogoclaw.App.KeyFiles.{
  KeyDir, auto_key, passphrase, bad_size, Env, Resolved, fresh, staged,
  new_encryptor_from_passphrase, staged_salt, fresh_key, resolve_new_encryptor, load_or_create_salt,
  resolve_encryptor, place, promote_key_files,
}
use gogoclaw.App.KeyFiles.Laws.{resolve_new_encryptor-promote_key_files, backup_of}

abbrev marked : Bytes → Option Bytes
marked [] = none
marked (b ∷ bs) = some bs

abbrev crypto : Crypto
crypto = record {
  accepts = λ key. true;
  seal = λ key nonce text aad. text;
  unseal = λ key nonce text aad. some text;
  encode = λ xs. 1 ∷ xs;
  decode = marked;
}

crypto-IsSound : IsSound crypto
crypto-IsSound = record {
  unseal-seal = λ key nonce text aad. refl;
  decode-encode = λ xs. refl;
  encode_nonempty = λ x xs e. cc;
}

abbrev derive : Bytes → Bytes → Bytes
derive pass salt = pass ++ salt

abbrev new_key : Bytes
new_key = bytes "0123456789abcdef0123456789abcdef"

abbrev new_salt : Bytes
new_salt = bytes "fedcba9876543210"

abbrev env : Env
env = record {
  makes = true;
  reads = true;
  writes = true;
  renames = true;
  drawn_key = some new_key;
  drawn_salt = some new_salt;
}

abbrev dir : KeyDir
dir = record {
  key = some (bytes "old");
  salt = none;
  key_new = none;
  salt_new = none;
  key_bak = none;
  salt_bak = none;
}

abbrev staged_dir : KeyDir
staged_dir = record dir { key_new = some (1 ∷ new_key) }

abbrev promoted_dir : KeyDir
promoted_dir = record dir { key = some (1 ∷ new_key); key_bak = some (bytes "old") }

abbrev resolved : Resolved
resolved = record { key = new_key; source = auto_key; how = fresh }

resolves : resolve_new_encryptor crypto derive env dir [] false ≡ (ok resolved, staged_dir)
unfolding resolve_new_encryptor fresh_key new_encryptor_from_key
resolves = refl

promotes : promote_key_files env staged_dir auto_key auto_key ≡ (none, promoted_dir)
unfolding promote_key_files place
promotes = refl

resolve_new_encryptor-promote_key_files_example :
    (resolve_new_encryptor crypto derive env staged_dir [] false
      ≡ (ok (record resolved { how = staged }), staged_dir))
    × (resolve_encryptor crypto derive env promoted_dir [] ≡ (ok new_key, promoted_dir))
    × (backup_of auto_key promoted_dir ≡ some (bytes "old"))
resolve_new_encryptor-promote_key_files_example =
    resolve_new_encryptor-promote_key_files crypto crypto-IsSound derive env env dir staged_dir
      promoted_dir [] resolved auto_key (omega arith) (omega arith) tt resolves refl refl promotes

-- A staged salt that is too short is used and promoted, and the next start refuses it.
abbrev short_dir : KeyDir
short_dir = record dir { salt_new = some (bytes "short") }

short_salt :
    ((resolve_new_encryptor crypto derive env short_dir (bytes "pass") false).0
      ≡ ok (record { key = bytes "passshort"; source = passphrase; how = staged }))
    × ((resolve_encryptor crypto derive env
          (promote_key_files env short_dir auto_key passphrase).1
          (bytes "pass")).0
        ≡ err bad_size)
unfolding resolve_new_encryptor staged_salt new_encryptor_from_passphrase promote_key_files place
    resolve_encryptor load_or_create_salt
short_salt = (refl, refl)

-- From a passphrase to a generated key, with the passphrase still set at the next start, the key
-- that is resolved is not the one that the data is under.
abbrev salted_dir : KeyDir
salted_dir = record staged_dir { key = none; salt = some (bytes "0123456789abcdef") }

still_set :
    (resolve_encryptor crypto derive env
      (promote_key_files env salted_dir passphrase auto_key).1
      (bytes "pass")).0
    ≡ ok (bytes "pass" ++ new_salt)
unfolding promote_key_files place resolve_encryptor load_or_create_salt
    new_encryptor_from_passphrase
still_set = refl
