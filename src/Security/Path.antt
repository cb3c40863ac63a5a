-- ===== src/Security/Path.antt =====
-- internal/security/path.go, with the same check in internal/skill/host.go: file operations stay
-- within allowed directories. `path/filepath` and the file system are the parameter `Files`.
pub mod Laws
use gogoclaw.Base.{
  Bool, true, false, ◌||◌, if◌then◌else◌, Option, none, some, List, [], ◌∷◌, ◌++◌, ℕ,
}
use gogoclaw.Base.Bytes.{Bytes, bytes_eq, has_prefix}
use gogoclaw.Base.Outcome.{Outcome, ok, err, ◌>>=◌}

-- `abs`, `clean`, `dir`, `base`, `join`, `is_abs` and `to_slash` are those of `filepath`; `exists` says whether
-- `os.Lstat` succeeds, and `eval_symlinks` is `none` for an error.
pub record Files : Type 0 where
  pub abs : Bytes → Option Bytes
  pub clean : Bytes → Bytes
  pub dir : Bytes → Bytes
  pub base : Bytes → Bytes
  pub join : Bytes → Bytes → Bytes
  pub is_abs : Bytes → Bool
  pub to_slash : Bytes → Bytes
  pub exists : Bytes → Bool
  pub eval_symlinks : Bytes → Option Bytes

pub data PathError : Type 0 where
  unresolved outside : Bytes → PathError
  bad_symlinks bad_parent_symlinks : PathError

abbrev pub slash : ℕ
slash = b'/'

abbrev or_error {ℓ} : {A : Type ℓ} → Option A → PathError → Outcome PathError A
or_error (some a) e = ok a
or_error none e = err e

unfoldable pub is_within : Bytes → Bytes → Bool
unfolding bytes_eq has_prefix
is_within child parent = bytes_eq child parent || has_prefix child (parent ++ (slash ∷ []))

module _ (fs : Files) where
  abs_all : List Bytes → Outcome PathError (List Bytes)
  abs_all [] = ok []
  abs_all (root ∷ roots) = do
    abs ← or_error (fs.abs root) (unresolved root)
    rest ← abs_all roots
    ok (fs.clean abs ∷ rest)

  -- `NewPathValidator`: the allowed roots.
  unfoldable pub new_path_validator : List Bytes → Outcome PathError (List Bytes)
  unfolding abs_all
  new_path_validator = abs_all

  -- The symbolic links of a path are resolved, or those of its parent if it does not exist.
  unfoldable pub resolve : Bytes → Outcome PathError Bytes
  resolve cleaned =
      if fs.exists cleaned
      then or_error (fs.eval_symlinks cleaned) bad_symlinks
      else if fs.exists (fs.dir cleaned)
      then (do
        parent ← or_error (fs.eval_symlinks (fs.dir cleaned)) bad_parent_symlinks
        ok (fs.join parent (fs.base cleaned)))
      else ok cleaned

  within_some : Bytes → List Bytes → Bool
  unfolding is_within
  within_some path [] = false
  within_some path (root ∷ roots) = is_within path root || within_some path roots

  unfoldable pub validate : List Bytes → Bytes → Outcome PathError Bytes
  unfolding resolve within_some
  validate roots path = do
    abs ← or_error (fs.abs path) (unresolved path)
    cleaned ← resolve (fs.clean abs)
    if within_some cleaned roots then ok cleaned else err (outside path)

  unfoldable pub validate_relative : List Bytes → Bytes → Bytes → Outcome PathError Bytes
  unfolding validate
  validate_relative roots base rel =
      if fs.is_abs rel then validate roots rel else validate roots (fs.join base rel)

  -- `checkPathAllowed`: an allowed directory is resolved too, and one that cannot be is skipped.
  resolve_allowed : Bytes → Option Bytes
  resolve_allowed a = elim (fs.abs a) [
    | none ↦ none
    | some abs ↦
        if fs.exists abs
        then (elim (fs.eval_symlinks abs) [
          | some real ↦ some (fs.to_slash real)
          | none ↦ some (fs.to_slash abs)
        ])
        else some (fs.to_slash abs)
  ]

  under_some : Bytes → List Bytes → Bool
  unfolding is_within resolve_allowed
  under_some path [] = false
  under_some path (a ∷ allowed) = elim (resolve_allowed a) [
    | none ↦ under_some path allowed
    | some dir ↦ is_within path dir || under_some path allowed
  ]

  unfoldable pub check_path_allowed : List Bytes → Bytes → Outcome PathError (Unit {0})
  unfolding resolve under_some
  check_path_allowed allowed path = do
    abs ← or_error (fs.abs path) (unresolved path)
    real ← resolve abs
    if under_some (fs.to_slash real) allowed then ok tt else err (outside path)
