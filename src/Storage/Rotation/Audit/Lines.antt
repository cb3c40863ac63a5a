-- ===== src/Storage/Rotation/Audit/Lines.antt =====
-- What a reader with a key sees in the audit log.
use gogoclaw.Base.{
  ℕ, ◌<◌, ◌≡◌, refl, ◌⊎◌, inl, inr, arith, true, false, Option, none, some, List, [], ◌∷◌,
  if◌then◌else◌, drop,
}
use gogoclaw.Base.Bytes.{Bytes, bytes_eq, has_prefix, trim_space, trim_left, trim_right, is_space}
use gogoclaw.Base.Outcome.{Outcome, ok}
use gogoclaw.Storage.Encryption.{Crypto}
use gogoclaw.Storage.Messages.{StorageError, open_text}
use gogoclaw.Storage.Rotation.Audit.{
  encrypted_prefix, Counted, blank, rotated, passed_thru, Output, add_counted,
}

pub trim_right_nonempty :
    (c : ℕ) (cs : Bytes) → is_space c ≡ false → bytes_eq (trim_right is_space (c ∷ cs)) [] ≡ false
unfolding trim_right bytes_eq
trim_right_nonempty c cs h = ground (arith, h)

pub trim_space_nonempty :
    (c : ℕ) (cs : Bytes) → is_space c ≡ false → bytes_eq (trim_space (c ∷ cs)) [] ≡ false
unfolding trim_space trim_left
trim_space_nonempty c cs h = rw (h, trim_left) (trim_right_nonempty c cs h)

-- What a line says to a reader with a key.
unfoldable pub read_line : Crypto → Bytes → Bytes → Outcome StorageError Bytes
read_line C key line =
    if bytes_eq (trim_space line) []
    then ok line
    else if has_prefix line encrypted_prefix
    then open_text C key [] (drop 7 line)
    else ok line

pub lines_of : (c : Counted) (l : Bytes) (o : Output) → (add_counted c l o).lines ≡ l ∷ o.lines
lines_of blank l o = refl
lines_of rotated l o = refl
lines_of passed_thru l o = refl

pub counts :
    (c : Counted) (l : Bytes) (o : Output)
    → 0 < (add_counted c l o).lines_rotated
    → (c ≡ rotated) ⊎ (0 < o.lines_rotated)
counts blank l o p = inr p
counts rotated l o p = inl refl
counts passed_thru l o p = inr p

pub not_positive : 0 < 0 → ⊥
not_positive h = omega arith

pub read_encrypted :
    (C : Crypto) (key l : Bytes)
    → bytes_eq (trim_space l) [] ≡ false
    → has_prefix l encrypted_prefix ≡ true
    → read_line C key l ≡ open_text C key [] (drop 7 l)
unfolding read_line
read_encrypted C key l e p = rw (e, read_line, p) refl

module _ (C : Crypto) (old new : Bytes) where
  -- A line that the old key reads, and one that the new key reads the same.
  abbrev pub SameLine : Bytes → Bytes → Type 0
  SameLine l l' = (x : Bytes) × (read_line C old l ≡ ok x) × (read_line C new l' ≡ ok x)

  abbrev pub SameLines : List Bytes → List Bytes → Type 0
  SameLines [] [] = Unit {0}
  SameLines (l ∷ ls) (k ∷ ks) = SameLine l k × SameLines ls ks
  SameLines _ _ = ⊥

  -- An encrypted line that the new key opens.
  abbrev pub IsNewLine : Bytes → Type 0
  IsNewLine l =
      (x : Bytes) × (bytes_eq (trim_space l) [] ≡ false)
      × (has_prefix l encrypted_prefix ≡ true)
      × (open_text C new [] (drop 7 l) ≡ ok x)

  -- A line that was rotated stands in the new log as an encrypted one.
  abbrev pub HasNewLine : List Bytes → Type 0
  HasNewLine [] = ⊥
  HasNewLine (l ∷ ls) = IsNewLine l ⊎ HasNewLine ls

  -- The log before and after, where a missing log stays missing.
  abbrev pub SameLog : Option (List Bytes) → Option (List Bytes) → Type 0
  SameLog none none = Unit {0}
  SameLog (some ls) (some ks) = SameLines ls ks
  SameLog _ _ = ⊥
