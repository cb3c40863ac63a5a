-- ===== src/Storage/Rotation/Pages.antt =====
-- internal/storage/rotation.go: the loops that work on a table batch by batch. Fuel bounds the
-- batches.
use gogoclaw.Base.{ℕ, zero, suc, ◌<◌, ◌≡◌, ◌≢◌, refl, inl, inr, ◌⊎◌, arith}
use gogoclaw.Base.Bytes.{Bytes}
use gogoclaw.Storage.Messages.{StorageError}

pub data RotateError : Type 0 where
  nil_encryptor same_key no_database canceled database audit_file : RotateError
  invalid_base64 undecryptable inconsistent : Bytes → RotateError
  sealing : StorageError → RotateError

pub data Ended : Type 0 where
  finished : Ended
  stopped : RotateError → Ended
  out_of_fuel : Ended

-- One round of a loop: there is nothing left, an error, or a batch was committed.
pub data Page {ℓ} (S : Type ℓ) : Type ℓ where
  done : Page S
  failed : RotateError → Page S
  next : S → Page S

pub Ended-cases :
    (o : Ended) → (o ≡ finished) ⊎ ((e : RotateError) × (o ≡ stopped e)) ⊎ (o ≡ out_of_fuel)
Ended-cases finished = inl refl
Ended-cases (stopped e) = inr (inl (e, refl))
Ended-cases out_of_fuel = inr (inr refl)

Page-cases {ℓ} :
    {S : Type ℓ} (p : Page S)
    → (p ≡ done) ⊎ ((e : RotateError) × (p ≡ failed e)) ⊎ ((s : S) × (p ≡ next s))
Page-cases done = inl refl
Page-cases (failed e) = inr (inl (e, refl))
Page-cases (next s) = inr (inr (s, refl))

module _ {ℓ} {S : Type ℓ} (page : ℕ → S → Page S) where
  unfoldable pub run_pages : ℕ → ℕ → S → Ended × S
  run_pages zero k s = (out_of_fuel, s)
  run_pages (suc fuel) k s = elim (page k s) [
    | done ↦ (finished, s)
    | failed e ↦ (stopped e, s)
    | next s' ↦ run_pages fuel (suc k) s'
  ]

  -- What every committed batch preserves, the loop preserves, however it ends.
  pub run_pages-inv {κ} :
      (P : S → Type κ)
      → ((k : ℕ) (s s' : S) → page k s ≡ next s' → P s → P s')
      → (fuel k : ℕ) (s : S) → P s
      → P (run_pages fuel k s).1
  unfolding run_pages
  run_pages-inv P keep zero k s p = p
  run_pages-inv P keep (suc fuel) k s p = elim (Page-cases (page k s)) [
    | inl e ↦ rw (e, run_pages) p
    | inr (inl (x, e)) ↦ rw (e, run_pages) p
    | inr (inr (s', e)) ↦ rw (e, run_pages) (run_pages-inv P keep fuel (suc k) s' (keep k s s' e p))
  ]

  -- A loop that ends with no error ends with a round that found nothing left.
  pub run_pages-done :
      (fuel k : ℕ) (s : S)
      → (run_pages fuel k s).0 ≡ finished
      → (j : ℕ) × (page j (run_pages fuel k s).1 ≡ done)
  unfolding run_pages
  run_pages-done zero k s h = cc
  run_pages-done (suc fuel) k s h = elim (Page-cases (page k s)) [
    | inl e ↦ rw (e, run_pages) (k, e)
    | inr (inl (x, e)) ↦ absurd (ground (arith, h))
    | inr (inr (s', e)) ↦ rw (e, run_pages) (run_pages-done fuel (suc k) s' (ground (arith, h)))
  ]

  -- With a measure that every committed batch lowers, the fuel does not run out.
  pub run_pages-ends :
      (measure : S → ℕ)
      → ((k : ℕ) (s s' : S) → page k s ≡ next s' → measure s' < measure s)
      → (fuel k : ℕ) (s : S) → measure s < fuel
      → (run_pages fuel k s).0 ≢ out_of_fuel
  unfolding run_pages
  run_pages-ends measure lower zero k s h e = absurd (omega arith)
  run_pages-ends measure lower (suc fuel) k s h e = elim (Page-cases (page k s)) [
    | inl d ↦ ground (arith, e)
    | inr (inl (x, d)) ↦ ground (arith, e)
    | inr (inr (s', d)) ↦
        run_pages-ends measure lower fuel (suc k) s' (ground (arith, lower k s s' d))
          (ground (arith, e))
  ]
