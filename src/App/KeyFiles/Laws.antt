-- ===== src/App/KeyFiles/Laws.antt =====
-- The key that a rotation stages is the key that it used, on a re-run and after its promotion.
use gogoclaw.Base.{
  ◌==◌, ◌≡◌, refl, ◌∙◌, inl, inr, arith, true, false, Option, none, some, [], length, Bool-cases,
}
use gogoclaw.Base.Bytes.{Bytes}
use gogoclaw.Base.Outcome.{ok, Outcome-cases}
use gogoclaw.Storage.Encryption.{Crypto, IsSound, new_encryptor_from_key}
use gogoclaw.App.KeyFiles.{
  KeyDir, KeySource, auto_key, passphrase, staged, Resolved, Env, new_encryptor_from_passphrase,
  load_base64_key, resolve_new_encryptor, load_or_create_key, load_or_create_salt,
  resolve_encryptor, backed_up, place, remove_old, old_file, with_backup, promote_key_files, exists,
}
use gogoclaw.App.KeyFiles.Staged.{
  HasLength, KeyStaged, SaltStaged, IsStaged, resolve-IsStaged, IsStaged-again,
}

-- The passphrase that the environment must hold for a kind of key.
abbrev pub passphrase_for : KeySource → Bytes → Bytes
passphrase_for auto_key pass = []
passphrase_for passphrase pass = pass

abbrev pub backup_of : KeySource → KeyDir → Option Bytes
backup_of auto_key dir = dir.key_bak
backup_of passphrase dir = dir.salt_bak

module _ (C : Crypto) (sound : IsSound C) (derive : Bytes → Bytes → Bytes) where
  -- What a promotion that succeeds does to the directory.
  promote-place :
      (env : Env) (dir dir2 : KeyDir) (old new : KeySource)
      → promote_key_files env dir old new ≡ (none, dir2)
      → (placed : KeyDir) × (place env (with_backup old dir) new ≡ ok placed)
        × (dir2 ≡ remove_old old new placed)
  unfolding promote_key_files
  promote-place env dir dir2 old new h = elim (Bool-cases (exists (old_file old dir))) [
    | inr e ↦ absurd (ground (arith, h, e))
    | inl e ↦ elim (Outcome-cases (backed_up env)) [
      | inr (x, b) ↦ absurd (ground (arith, h, e, b))
      | inl (u, b) ↦ elim (Outcome-cases (place env (with_backup old dir) new)) [
        | inr (x, p) ↦ absurd (ground (arith, h, e, b, p))
        | inl (placed, p) ↦ (placed, p, ground (arith, h, e, b, p))
      ]
    ]
  ]

  abbrev Promoted : Env → KeyDir → KeyDir → Bytes → KeySource → Bytes → KeySource → Type 0
  Promoted env dir dir2 pass source key old =
      (resolve_encryptor C derive env dir2 (passphrase_for source pass) ≡ (ok key, dir2))
      × (backup_of old dir2 ≡ old_file old dir)

  place_auto :
      (env : Env) (dir placed : KeyDir) (f : Bytes)
      → dir.key_new ≡ some f
      → place env dir auto_key ≡ ok placed
      → placed ≡ record dir { key = some f; key_new = none }
  unfolding place
  place_auto env dir placed f k h = elim (Bool-cases env.renames) [
    | inl n ↦ ground (arith, h, k, n)
    | inr n ↦ absurd (ground (arith, h, k, n))
  ]

  place_salt :
      (env : Env) (dir placed : KeyDir) (f : Bytes)
      → dir.salt_new ≡ some f
      → place env dir passphrase ≡ ok placed
      → placed ≡ record dir { salt = some f; salt_new = none }
  unfolding place
  place_salt env dir placed f k h = elim (Bool-cases env.renames) [
    | inl n ↦ ground (arith, h, k, n)
    | inr n ↦ absurd (ground (arith, h, k, n))
  ]

  -- A directory with the key or the salt in use resolves to it.
  resolve-key :
      (env : Env) (dir : KeyDir) (f key : Bytes)
      → env.reads ≡ true
      → env.makes ≡ true
      → dir.key ≡ some f
      → C.decode f ≡ some key
      → length key ≡ 32
      → resolve_encryptor C derive env dir [] ≡ (ok key, dir)
  unfolding resolve_encryptor load_or_create_key load_base64_key new_encryptor_from_key
  resolve-key env dir f key r m k d size = ground (arith, r, m, k, d, size)

  resolve-salt :
      (env : Env) (dir : KeyDir) (pass f : Bytes)
      → env.reads ≡ true
      → env.makes ≡ true
      → (length pass == 0) ≡ false
      → dir.salt ≡ some f
      → length f ≡ 16
      → resolve_encryptor C derive env dir pass ≡ (ok (derive pass f), dir)
  unfolding resolve_encryptor load_or_create_salt new_encryptor_from_passphrase
  resolve-salt env dir pass f r m g k size = ground (arith, r, m, g, k, size)

  module _ (env : Env) (dir dir2 : KeyDir) (pass key : Bytes) (r : env.reads ≡ true)
      (m : env.makes ≡ true) where
    promote_key :
        (old : KeySource)
        → KeyStaged C sound derive dir key
        → promote_key_files env dir old auto_key ≡ (none, dir2)
        → Promoted env dir dir2 pass auto_key key old
    promote_key auto_key (f, k, s, d, size) h =
        let (placed, p, after) = promote-place env dir dir2 auto_key auto_key h in
        rw (after, place_auto env _ placed f k p) (resolve-key env _ f key r m refl d size, refl)
    promote_key passphrase (f, k, s, d, size) h =
        let (placed, p, after) = promote-place env dir dir2 passphrase auto_key h in
        rw (after, place_auto env _ placed f k p) (resolve-key env _ f key r m refl d size, refl)

    promote_salt :
        (old : KeySource)
        → SaltStaged C sound derive dir pass key
        → promote_key_files env dir old passphrase ≡ (none, dir2)
        → Promoted env dir dir2 pass passphrase key old
    promote_salt auto_key (f, k, s, g, size, is) h =
        let (placed, p, after) = promote-place env dir dir2 auto_key passphrase h in
        rw (after, place_salt env _ placed f s p, ← is)
          (resolve-salt env _ pass f r m g refl size, refl)
    promote_salt passphrase (f, k, s, g, size, is) h =
        let (placed, p, after) = promote-place env dir dir2 passphrase passphrase h in
        rw (after, place_salt env _ placed f s p, ← is)
          (resolve-salt env _ pass f r m g refl size, refl)

  promote-IsStaged :
      (env : Env) (dir dir2 : KeyDir) (pass : Bytes) (old : KeySource) (o : Resolved)
      → env.reads ≡ true
      → env.makes ≡ true
      → IsStaged C sound derive dir pass o
      → promote_key_files env dir old o.source ≡ (none, dir2)
      → Promoted env dir dir2 pass o.source o.key old
  promote-IsStaged env dir dir2 pass old o r m (inl (is, st)) h =
      rw is (promote_key env dir dir2 pass o.key r m old st (rw is at h))
  promote-IsStaged env dir dir2 pass old o r m (inr (is, st)) h =
      rw is (promote_salt env dir dir2 pass o.key r m old st (rw is at h))

  same_old_file :
      (old : KeySource) (dir dir1 : KeyDir)
      → dir1.key ≡ dir.key
      → dir1.salt ≡ dir.salt
      → old_file old dir1 ≡ old_file old dir
  same_old_file auto_key dir dir1 k s = k
  same_old_file passphrase dir dir1 k s = s

  -- With base64 that decodes what it encodes, a drawn key of 32 bytes, a drawn salt of 16 and a
  -- salt of 16 bytes if one is staged already: when a new key was resolved outside a dry run,
  -- resolving again, in a state where files can be read, gives the same key and changes nothing, and
  -- after a promotion that reports no error, the program's next start resolves that same key, with
  -- the passphrase if the key is derived from one, and the old file is in its backup.
  pub resolve_new_encryptor-promote_key_files :
      (env later : Env) (dir dir1 dir2 : KeyDir) (pass : Bytes) (o : Resolved) (old : KeySource)
      → HasLength 32 env.drawn_key
      → HasLength 16 env.drawn_salt
      → HasLength 16 dir.salt_new
      → resolve_new_encryptor C derive env dir pass false ≡ (ok o, dir1)
      → later.reads ≡ true
      → later.makes ≡ true
      → promote_key_files later dir1 old o.source ≡ (none, dir2)
      → (resolve_new_encryptor C derive later dir1 pass false
          ≡ (ok (record o { how = staged }), dir1))
        × (resolve_encryptor C derive later dir2 (passphrase_for o.source pass) ≡ (ok o.key, dir2))
        × (backup_of old dir2 ≡ old_file old dir)
  resolve_new_encryptor-promote_key_files env later dir dir1 dir2 pass o old len_key len_salt
        len_new h r m p =
      let (st, key, salt) =
        resolve-IsStaged C sound derive env dir dir1 pass o len_key len_salt len_new h in
      let (next_start, backed) = promote-IsStaged later dir1 dir2 pass old o r m st p in
      (
        IsStaged-again C sound derive later dir1 pass false o r st,
        next_start,
        backed ∙ same_old_file old dir dir1 key salt,
      )
