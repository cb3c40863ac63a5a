-- ===== src/Security/Path/Laws.antt =====
-- Which paths pass the validator.
use mathlib.Core.List.{append_assoc}
use gogoclaw.Base.{
  ◌≡◌, ◌≢◌, ◌↔◌, ◌⊎◌, ◌∙◌, inl, inr, arith, true, false, ◌||◌, some, List, [], ◌∷◌, ◌++◌, length,
  drop, Bool-cases, ℕ, ==_iff,
}
use gogoclaw.Base.Bytes.{
  Bytes, bytes_eq, bytes_eq_iff, has_prefix, has_prefix-append, append-has_prefix,
}
use gogoclaw.Security.Path.{Files, slash, is_within}

-- A path is the directory itself or continues it behind a separator.
abbrev pub IsUnder : Bytes → Bytes → Type 0
IsUnder path root = (path ≡ root) ⊎ ((rest : Bytes) × (path ≡ root ++ (slash ∷ rest)))

append_cons_assoc : (xs : Bytes) (c : ℕ) (ys : Bytes) → xs ++ (c ∷ []) ++ ys ≡ xs ++ (c ∷ ys)
append_cons_assoc xs c ys = append_assoc xs (c ∷ []) ys

pub is_within_iff : (path root : Bytes) → (is_within path root ≡ true) ↔ IsUnder path root
unfolding is_within
is_within_iff path root = (there, back)
  where
    there :
        (bytes_eq path root || has_prefix path (root ++ (slash ∷ []))) ≡ true → IsUnder path root
    there h = elim (Bool-cases (bytes_eq path root)) [
      | inl same ↦ inl ((bytes_eq_iff path root).0 same)
      | inr other ↦
          let sep = root ++ (slash ∷ []) in
          let rest = drop (length sep) path in
          inr (rest, has_prefix-append path sep (ground arith) ∙ append_cons_assoc root slash rest)
    ]

    back : IsUnder path root → (bytes_eq path root || has_prefix path (root ++ (slash ∷ []))) ≡ true
    back (inl e) = ground (arith, bytes_eq_iff path root)
    back (inr (rest, e)) =
        rw (e, ← append_cons_assoc root slash rest)
          (ground (arith, append-has_prefix (root ++ (slash ∷ [])) rest))

abbrev pub UnderSome : Bytes → List Bytes → Type 0
UnderSome path [] = ⊥
UnderSome path (root ∷ roots) = IsUnder path root ⊎ UnderSome path roots

module _ (fs : Files) where
  -- Where the links of a path lead: of the path itself if it exists, of its parent if only that
  -- exists; a path whose parent does not exist either is taken as it is.
  pub data Resolves (path : Bytes) : Bytes → Type 0 where
    existing :
        {place : Bytes}
        → fs.exists path ≡ true
        → fs.eval_symlinks path ≡ some place
        → Resolves path place
    new_file :
        {parent : Bytes}
        → fs.exists path ≡ false
        → fs.exists (fs.dir path) ≡ true
        → fs.eval_symlinks (fs.dir path) ≡ some parent
        → Resolves path (fs.join parent (fs.base path))
    no_parent : fs.exists path ≡ false → fs.exists (fs.dir path) ≡ false → Resolves path path

-- With the file system's root as allowed directory no absolute path passes whose second byte is
-- not a separator: the separator put behind the directory makes the prefix `//`.
pub is_within_root_dir :
    (c : ℕ) (rest : Bytes) → c ≢ slash → is_within (slash ∷ c ∷ rest) (slash ∷ []) ≡ false
unfolding is_within
is_within_root_dir c rest ne = ground (arith, ==_iff c slash)
