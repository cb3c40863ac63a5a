-- ===== src/App/KeyFiles/Staged.antt =====
-- The staged files say which key was resolved.
use gogoclaw.Base.{
  ℕ, ◌==◌, ==_iff, ◌≡◌, refl, ◌⊎◌, inl, inr, arith, Bool, true, false, Option, none, some, length,
  Bool-cases, Option-cases, if◌then◌else◌,
}
use gogoclaw.Base.Bytes.{Bytes}
use gogoclaw.Base.Outcome.{ok}
use gogoclaw.Storage.Encryption.{Crypto, IsSound, new_encryptor_from_key}
use gogoclaw.App.KeyFiles.{
  KeyDir, auto_key, passphrase, fresh, staged, Resolved, Env, new_encryptor_from_passphrase,
  load_base64_key, staged_key, staged_salt, fresh_salt, fresh_key, resolve_new_encryptor,
}

abbrev pub HasLength : ℕ → Option Bytes → Type 0
HasLength n none = Unit {0}
HasLength n (some f) = length f ≡ n

module _ (C : Crypto) (sound : IsSound C) (derive : Bytes → Bytes → Bytes) where
  -- The staged files of a directory say which key was resolved, and its other files are those of
  -- an earlier one.
  abbrev pub KeyStaged : KeyDir → Bytes → Type 0
  KeyStaged dir key =
      (f : Bytes) × (dir.key_new ≡ some f)
      × (dir.salt_new ≡ none)
      × (C.decode f ≡ some key)
      × (length key ≡ 32)

  abbrev pub SaltStaged : KeyDir → Bytes → Bytes → Type 0
  SaltStaged dir pass key =
      (f : Bytes) × (dir.key_new ≡ none)
      × (dir.salt_new ≡ some f)
      × ((length pass == 0) ≡ false)
      × (length f ≡ 16)
      × (derive pass f ≡ key)

  abbrev pub IsStaged : KeyDir → Bytes → Resolved → Type 0
  IsStaged dir pass o =
      ((o.source ≡ auto_key) × KeyStaged dir o.key)
      ⊎ ((o.source ≡ passphrase) × SaltStaged dir pass o.key)

  fresh_key-IsStaged :
      (env : Env) (dir dir1 : KeyDir) (pass : Bytes) (o : Resolved)
      → HasLength 32 env.drawn_key
      → dir.salt_new ≡ none
      → fresh_key C derive env dir false ≡ (ok o, dir1)
      → IsStaged dir1 pass o × (dir1.key ≡ dir.key) × (dir1.salt ≡ dir.salt)
  unfolding fresh_key new_encryptor_from_key
  fresh_key-IsStaged env dir dir1 pass o len no_salt_new h = elim (Option-cases env.drawn_key) [
    | inl e ↦ absurd (ground (arith, h, e))
    | inr (k, e) ↦
        let size : length k ≡ 32 = (rw e at len) in
        elim (Bool-cases (if env.makes then env.writes else false)) [
          | inr w ↦ absurd (ground (arith, h, e, w))
          | inl w ↦
              let is : o ≡ record { key = k; source = auto_key; how = fresh } =
                ground (arith, h, e, w, size) in
              let after : dir1 ≡ record dir { key_new = some (C.encode k) } =
                ground (arith, h, e, w, size) in
              rw (is, after)
                (
                  inl (refl, (C.encode k, refl, no_salt_new, sound.decode-encode k, size)),
                  refl,
                  refl,
                )
        ]
  ]

  fresh_salt-IsStaged :
      (env : Env) (dir dir1 : KeyDir) (pass : Bytes) (o : Resolved)
      → HasLength 16 env.drawn_salt
      → dir.key_new ≡ none
      → (length pass == 0) ≡ false
      → fresh_salt C derive env dir pass false ≡ (ok o, dir1)
      → IsStaged dir1 pass o × (dir1.key ≡ dir.key) × (dir1.salt ≡ dir.salt)
  unfolding fresh_salt new_encryptor_from_passphrase
  fresh_salt-IsStaged env dir dir1 pass o len no_key_new given h =
      elim (Option-cases env.drawn_salt) [
        | inl e ↦ absurd (ground (arith, h, e))
        | inr (f, e) ↦
            let size : length f ≡ 16 = (rw e at len) in
            elim (Bool-cases (if env.makes then env.writes else false)) [
              | inr w ↦ absurd (ground (arith, h, e, w))
              | inl w ↦
                  let is : o ≡ record { key = derive pass f; source = passphrase; how = fresh } =
                    ground (arith, h, e, w, size, given) in
                  let after : dir1 ≡ record dir { salt_new = some f } =
                    ground (arith, h, e, w, size, given) in
                  rw (is, after) (inr (refl, (f, no_key_new, refl, given, size, refl)), refl, refl)
            ]
      ]

  staged_key-KeyStaged :
      (env : Env) (dir : KeyDir) (pass f : Bytes) (o : Resolved)
      → dir.key_new ≡ some f
      → dir.salt_new ≡ none
      → staged_key C derive env f ≡ ok o
      → IsStaged dir pass o
  unfolding staged_key load_base64_key new_encryptor_from_key
  staged_key-KeyStaged env dir pass f o here no_salt_new h = elim (Bool-cases env.reads) [
    | inr r ↦ absurd (ground (arith, h, r))
    | inl r ↦ elim (Option-cases (C.decode f)) [
      | inl d ↦ absurd (ground (arith, h, r, d))
      | inr (k, d) ↦ elim (Bool-cases (length k == 32)) [
        | inr n ↦ absurd (ground (arith, h, r, d, n))
        | inl n ↦
            let is : o ≡ record { key = k; source = auto_key; how = staged } =
              ground (arith, h, r, d, n) in
            rw is (inl (refl, (f, here, no_salt_new, d, (==_iff (length k) 32).0 n)))
      ]
    ]
  ]

  staged_salt-SaltStaged :
      (env : Env) (dir : KeyDir) (pass f : Bytes) (o : Resolved)
      → dir.salt_new ≡ some f
      → dir.key_new ≡ none
      → length f ≡ 16
      → staged_salt C derive env pass f ≡ ok o
      → IsStaged dir pass o
  unfolding staged_salt new_encryptor_from_passphrase
  staged_salt-SaltStaged env dir pass f o here no_key_new size h =
      elim (Bool-cases (length pass == 0)) [
        | inl g ↦ absurd (ground (arith, h, g))
        | inr g ↦ elim (Bool-cases env.reads) [
          | inr r ↦ absurd (ground (arith, h, g, r))
          | inl r ↦
              let is : o ≡ record { key = derive pass f; source = passphrase; how = staged } =
                ground (arith, h, g, r, size) in
              rw is (inr (refl, (f, no_key_new, here, g, size, refl)))
        ]
      ]

  -- What was resolved stands in the staged files, and the files in use are left alone.
  pub resolve-IsStaged :
      (env : Env) (dir dir1 : KeyDir) (pass : Bytes) (o : Resolved)
      → HasLength 32 env.drawn_key
      → HasLength 16 env.drawn_salt
      → HasLength 16 dir.salt_new
      → resolve_new_encryptor C derive env dir pass false ≡ (ok o, dir1)
      → IsStaged dir1 pass o × (dir1.key ≡ dir.key) × (dir1.salt ≡ dir.salt)
  unfolding resolve_new_encryptor
  resolve-IsStaged env dir dir1 pass o len_key len_salt len_new h =
      elim (Option-cases dir.key_new) [
        | inr (f, k) ↦ elim (Option-cases dir.salt_new) [
          | inr (g, s) ↦ absurd (ground (arith, h, k, s))
          | inl s ↦
              let now : staged_key C derive env f ≡ ok o = ground (arith, h, k, s) in
              let same : dir1 ≡ dir = ground (arith, h, k, s) in
              rw same (staged_key-KeyStaged env dir pass f o k s now, refl, refl)
        ]
        | inl k ↦ elim (Option-cases dir.salt_new) [
          | inr (f, s) ↦
              let now : staged_salt C derive env pass f ≡ ok o = ground (arith, h, k, s) in
              let same : dir1 ≡ dir = ground (arith, h, k, s) in
              rw same
                (staged_salt-SaltStaged env dir pass f o s k (rw s at len_new) now, refl, refl)
          | inl s ↦ elim (Bool-cases (length pass == 0)) [
            | inl g ↦ fresh_key-IsStaged env dir dir1 pass o len_key s (ground (arith, h, k, s, g))
            | inr g ↦
                fresh_salt-IsStaged env dir dir1 pass o len_salt k g (ground (arith, h, k, s, g))
          ]
        ]
      ]

  pub IsStaged-again :
      (env : Env) (dir : KeyDir) (pass : Bytes) (dry_run : Bool) (o : Resolved)
      → env.reads ≡ true
      → IsStaged dir pass o
      → resolve_new_encryptor C derive env dir pass dry_run ≡ (ok (record o { how = staged }), dir)
  unfolding resolve_new_encryptor staged_key staged_salt load_base64_key new_encryptor_from_key
      new_encryptor_from_passphrase
  IsStaged-again env dir pass dry_run o r (inl (is, (f, k, s, d, size))) =
      ground (arith, r, is, k, s, d, size)
  IsStaged-again env dir pass dry_run o r (inr (is, (f, k, s, given, size, key))) =
      ground (arith, r, is, k, s, given, size, key)
