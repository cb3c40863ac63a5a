-- ===== src/App/KeyFiles.antt =====
-- internal/app/rotation.go, `ResolveEncryptor` of internal/app/storage.go, and the key and salt
-- files of internal/storage/encryption.go. The data directory is the contents of its six files;
-- base64, the derivation of a key from a passphrase and what the file system does are parameters. A write that fails leaves
-- the file as it was.
pub mod Staged
pub mod Laws
mod Tests
use gogoclaw.Base.{ℕ, ◌==◌, Bool, true, false, not, if◌then◌else◌, Option, none, some, [], length}
use gogoclaw.Base.Bytes.{Bytes}
use gogoclaw.Base.Outcome.{Outcome, ok, err, ◌>>=◌}
use gogoclaw.Storage.Encryption.{Crypto, CryptoError, key_bytes, new_encryptor_from_key}

-- `.encryption_key`, `.encryption_salt`, their staged `.new` files and their backups.
pub record KeyDir : Type 0 where
  pub key : Option Bytes
  pub salt : Option Bytes
  pub key_new : Option Bytes
  pub salt_new : Option Bytes
  pub key_bak : Option Bytes
  pub salt_bak : Option Bytes

pub data KeyError : Type 0 where
  conflicting no_passphrase no_old_file bad_file bad_size no_salt no_random file_system : KeyError
  crypto : CryptoError → KeyError

pub data KeySource : Type 0 where
  auto_key passphrase : KeySource

pub data How : Type 0 where
  fresh staged dry : How

pub record Resolved : Type 0 where
  pub key : Bytes
  pub source : KeySource
  pub how : How

-- Whether directories are made, files read and written and renamed, and what is drawn.
pub record Env : Type 0 where
  pub makes : Bool
  pub reads : Bool
  pub writes : Bool
  pub renames : Bool
  pub drawn_key : Option Bytes
  pub drawn_salt : Option Bytes

abbrev pub salt_bytes : ℕ
salt_bytes = 16

abbrev pub require : Bool → KeyError → Outcome KeyError (Unit {0})
require true e = ok tt
require false e = err e

abbrev pub from_option : {A : Type 0} → KeyError → Option A → Outcome KeyError A
from_option e none = err e
from_option e (some a) = ok a

abbrev pub from_crypto : {A : Type 0} → Outcome CryptoError A → Outcome KeyError A
from_crypto (ok a) = ok a
from_crypto (err e) = err (crypto e)

abbrev pub exists : Option Bytes → Bool
exists none = false
exists (some f) = true

-- A Go call's results and the directory after it.
abbrev pub Step : Type 0 → Type 0
Step A = Outcome KeyError A × KeyDir

module _ (C : Crypto) (derive : Bytes → Bytes → Bytes) where
  unfoldable pub new_encryptor_from_passphrase : Bytes → Bytes → Outcome KeyError Bytes
  new_encryptor_from_passphrase pass salt =
      if length pass == 0
      then err no_passphrase
      else if length salt == 0
      then err no_salt
      else ok (derive pass salt)

  -- `loadBase64Key`
  unfoldable pub load_base64_key : Env → Bytes → Outcome KeyError Bytes
  load_base64_key env file = do
    _ ← require env.reads file_system
    key ← from_option bad_file (C.decode file)
    _ ← require (length key == key_bytes) bad_size
    ok key

  unfoldable pub staged_key : Env → Bytes → Outcome KeyError Resolved
  unfolding load_base64_key new_encryptor_from_key
  staged_key env file = do
    key ← load_base64_key env file
    enc ← from_crypto (new_encryptor_from_key key)
    ok (record { key = enc; source = auto_key; how = staged })

  unfoldable pub staged_salt : Env → Bytes → Bytes → Outcome KeyError Resolved
  unfolding new_encryptor_from_passphrase
  staged_salt env pass file = do
    _ ← require (not (length pass == 0)) no_passphrase
    _ ← require env.reads file_system
    enc ← new_encryptor_from_passphrase pass file
    ok (record { key = enc; source = passphrase; how = staged })

  -- A write is left out in a dry run.
  abbrev written : Env → Bool → Outcome KeyError (Unit {0})
  written env dry_run =
      if dry_run then ok tt else require (if env.makes then env.writes else false) file_system

  abbrev how_of : Bool → How
  how_of dry_run = if dry_run then dry else fresh

  -- A salt that was written stays, even where no key can be derived.
  unfoldable pub fresh_salt : Env → KeyDir → Bytes → Bool → Step Resolved
  unfolding new_encryptor_from_passphrase
  fresh_salt env dir pass dry_run =
      elim (do salt ← from_option no_random env.drawn_salt; _ ← written env dry_run; ok salt) [
        | err e ↦ (err e, dir)
        | ok salt ↦ (
          do
            enc ← new_encryptor_from_passphrase pass salt
            ok (record { key = enc; source = passphrase; how = how_of dry_run }),
          if dry_run then dir else record dir { salt_new = some salt },
        )
      ]

  unfoldable pub fresh_key : Env → KeyDir → Bool → Step Resolved
  unfolding new_encryptor_from_key
  fresh_key env dir dry_run =
      elim (do key ← from_option no_random env.drawn_key; _ ← written env dry_run; ok key) [
        | err e ↦ (err e, dir)
        | ok key ↦ (
          do
            enc ← from_crypto (new_encryptor_from_key key)
            ok (record { key = enc; source = auto_key; how = how_of dry_run }),
          if dry_run then dir else record dir { key_new = some (C.encode key) },
        )
      ]

  -- `ResolveNewEncryptor`
  unfoldable pub resolve_new_encryptor : Env → KeyDir → Bytes → Bool → Step Resolved
  unfolding staged_key staged_salt fresh_salt fresh_key
  resolve_new_encryptor env dir pass dry_run = elim dir.key_new [
    | some file ↦ elim dir.salt_new [
      | some other ↦ (err conflicting, dir)
      | none ↦ (staged_key env file, dir)
    ]
    | none ↦ elim dir.salt_new [
      | some file ↦ (staged_salt env pass file, dir)
      | none ↦
          if length pass == 0 then fresh_key env dir dry_run else fresh_salt env dir pass dry_run
    ]
  ]

  -- `LoadOrCreateKey` and `LoadOrCreateSalt`
  unfoldable pub load_or_create_key : Env → KeyDir → Step Bytes
  unfolding load_base64_key
  load_or_create_key env dir = if not env.makes then (err file_system, dir) else (elim dir.key [
    | some file ↦ (load_base64_key env file, dir)
    | none ↦ elim env.drawn_key [
      | none ↦ (err no_random, dir)
      | some key ↦
          if env.writes
          then (ok key, record dir { key = some (C.encode key) })
          else (err file_system, dir)
    ]
  ])

  unfoldable pub load_or_create_salt : Env → KeyDir → Step Bytes
  load_or_create_salt env dir = if not env.makes then (err file_system, dir) else (elim dir.salt [
    | some file ↦ (
      do
        _ ← require env.reads file_system
        _ ← require (length file == salt_bytes) bad_size
        ok file,
      dir,
    )
    | none ↦ elim env.drawn_salt [
      | none ↦ (err no_random, dir)
      | some salt ↦
          if env.writes then (ok salt, record dir { salt = some salt }) else (err file_system, dir)
    ]
  ])

  -- `ResolveEncryptor` where encryption is on; the passphrase is that of the environment.
  unfoldable pub resolve_encryptor : Env → KeyDir → Bytes → Step Bytes
  unfolding new_encryptor_from_passphrase new_encryptor_from_key load_or_create_key
      load_or_create_salt
  resolve_encryptor env dir pass =
      if length pass == 0
      then (
        (load_or_create_key env dir).0 >>= (λ key. from_crypto (new_encryptor_from_key key)),
        (load_or_create_key env dir).1,
      )
      else (
        (load_or_create_salt env dir).0 >>= (λ salt. new_encryptor_from_passphrase pass salt),
        (load_or_create_salt env dir).1,
      )

-- `backupFile` of a file that is there.
abbrev pub backed_up : Env → Outcome KeyError (Unit {0})
backed_up env = require (if env.reads then env.writes else false) file_system

-- `os.Rename`, which fails if there is no such file.
abbrev pub renamed : Env → Option Bytes → Outcome KeyError Bytes
renamed env file = if env.renames then from_option file_system file else err file_system

-- A new key or salt in place of the old one.
unfoldable pub place : Env → KeyDir → KeySource → Outcome KeyError KeyDir
place env dir auto_key = do
  f ← renamed env dir.key_new
  ok (record dir { key = some f; key_new = none })
place env dir passphrase = do
  f ← renamed env dir.salt_new
  ok (record dir { salt = some f; salt_new = none })

-- What is removed when the kind of key changes.
abbrev pub remove_old : KeySource → KeySource → KeyDir → KeyDir
remove_old auto_key passphrase dir = record dir { key = none }
remove_old passphrase auto_key dir = record dir { salt = none }
remove_old auto_key auto_key dir = dir
remove_old passphrase passphrase dir = dir

-- The old file, and the directory with a copy of it.
abbrev pub old_file : KeySource → KeyDir → Option Bytes
old_file auto_key dir = dir.key
old_file passphrase dir = dir.salt

abbrev pub with_backup : KeySource → KeyDir → KeyDir
with_backup auto_key dir = record dir { key_bak = dir.key }
with_backup passphrase dir = record dir { salt_bak = dir.salt }

-- `PromoteKeyFiles`
unfoldable pub promote_key_files : Env → KeyDir → KeySource → KeySource → Option KeyError × KeyDir
unfolding place
promote_key_files env dir old new =
    if not (exists (old_file old dir)) then (some no_old_file, dir) else (elim (backed_up env) [
      | err e ↦ (some e, dir)
      | ok u ↦ elim (place env (with_backup old dir) new) [
        | err e ↦ (some e, with_backup old dir)
        | ok placed ↦ (none, remove_old old new placed)
      ]
    ])

-- `CleanupStagingFiles`
unfoldable pub cleanup_staging_files : KeyDir → KeyDir
cleanup_staging_files dir = record dir { key_new = none; salt_new = none }
