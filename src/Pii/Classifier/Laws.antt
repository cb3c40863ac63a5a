-- ===== src/Pii/Classifier/Laws.antt =====
-- The types that are reported, and what `HasPII` says of `Detect`.
use gogoclaw.Base.{
  ℕ, ◌≡◌, ◌≢◌, ◌⊎◌, ◌↔◌, refl, sym, subst, inl, inr, arith, true, false, List, [], ◌∷◌, ◌++◌, map,
  any_of, Bool-cases,
}
use gogoclaw.Base.Bytes.{Bytes}
use gogoclaw.Pii.Classifier.{
  PatternType, PatternType-discrete, Pattern, patterns, Detection, Regexp, detect_spans, detect_all,
  detect, first_verifies, has_pii, seen_type, collect_types, pattern_types,
}

-- Whether a type is on a list.
abbrev pub IsIn : PatternType → List PatternType → Type 0
IsIn t [] = ⊥
IsIn t (u ∷ us) = (t ≡ u) ⊎ IsIn t us

abbrev pub Distinct : List PatternType → Type 0
Distinct [] = Unit {0}
Distinct (t ∷ ts) = (¬ IsIn t ts) × Distinct ts

seen_type-IsIn : (t : PatternType) (ts : List PatternType) → seen_type t ts ≡ true → IsIn t ts
unfolding seen_type
seen_type-IsIn t [] h = absurd (ground arith)
seen_type-IsIn t (u ∷ us) h = elim (PatternType-discrete t u) [
  | yes e ↦ inl e
  | no ne ↦ inr (seen_type-IsIn t us (ground arith))
]

IsIn-seen_type : (t : PatternType) (ts : List PatternType) → IsIn t ts → seen_type t ts ≡ true
unfolding seen_type
IsIn-seen_type t [] h = elim h [ ]
IsIn-seen_type t (u ∷ us) h = ground (arith, IsIn-seen_type t us)

module _ (seen : List PatternType) (d : Detection) (ds : List Detection) where
  skip_seen : seen_type d.type seen ≡ true → collect_types seen (d ∷ ds) ≡ collect_types seen ds
  unfolding collect_types
  skip_seen old = ground arith

  take_new :
      seen_type d.type seen ≡ false
      → collect_types seen (d ∷ ds) ≡ d.type ∷ collect_types (d.type ∷ seen) ds
  unfolding collect_types
  take_new new = ground arith

not_seen : (t : PatternType) (ts : List PatternType) → seen_type t ts ≡ false → ¬ IsIn t ts
not_seen t ts new i = cc (IsIn-seen_type t ts i)

collect_types-IsIn :
    (ds : List Detection) (seen : List PatternType) (t : PatternType)
    → IsIn t (collect_types seen ds)
    → (¬ IsIn t seen) × IsIn t (map (λ d. d.type) ds)
collect_types-IsIn [] seen t h = unfold collect_types in elim h [ ]
collect_types-IsIn (d ∷ ds) seen t h = elim (Bool-cases (seen_type d.type seen)) [
  | inl old ↦
      let (fresh, i) = collect_types-IsIn ds seen t (subst (IsIn t) (skip_seen seen d ds old) h) in
      (fresh, inr i)
  | inr new ↦
      head_or_tail new (subst (IsIn t) (take_new seen d ds new) h)
        (collect_types-IsIn ds (d.type ∷ seen) t)
]
  where
    head_or_tail :
        seen_type d.type seen ≡ false
        → IsIn t (d.type ∷ collect_types (d.type ∷ seen) ds)
        → (IsIn t (collect_types (d.type ∷ seen) ds)
            → (¬ IsIn t (d.type ∷ seen)) × IsIn t (map (λ e. e.type) ds))
        → (¬ IsIn t seen) × IsIn t (map (λ e. e.type) (d ∷ ds))
    head_or_tail new (inl e) ih =
        (subst (λ u. ¬ IsIn u seen) (sym e) (not_seen d.type seen new), inl e)
    head_or_tail new (inr i) ih = let (fresh, j) = ih i in ((λ k. fresh (inr k)), inr j)

IsIn-collect_types :
    (ds : List Detection) (seen : List PatternType) (t : PatternType)
    → IsIn t (map (λ d. d.type) ds)
    → IsIn t seen ⊎ IsIn t (collect_types seen ds)
IsIn-collect_types [] seen t h = elim h [ ]
IsIn-collect_types (d ∷ ds) seen t h = elim (Bool-cases (seen_type d.type seen)) [
  | inl old ↦ rw (skip_seen seen d ds old) (old_case old h (IsIn-collect_types ds seen t))
  | inr new ↦ rw (take_new seen d ds new) (new_case h (IsIn-collect_types ds (d.type ∷ seen) t))
]
  where
    old_case :
        seen_type d.type seen ≡ true
        → IsIn t (map (λ e. e.type) (d ∷ ds))
        → (IsIn t (map (λ e. e.type) ds) → IsIn t seen ⊎ IsIn t (collect_types seen ds))
        → IsIn t seen ⊎ IsIn t (collect_types seen ds)
    old_case old (inl e) ih =
        inl (subst (λ u. IsIn u seen) (sym e) (seen_type-IsIn d.type seen old))
    old_case old (inr i) ih = ih i

    regroup :
        IsIn t (d.type ∷ seen) ⊎ IsIn t (collect_types (d.type ∷ seen) ds)
        → IsIn t seen ⊎ IsIn t (d.type ∷ collect_types (d.type ∷ seen) ds)
    regroup (inl (inl e)) = inr (inl e)
    regroup (inl (inr i)) = inl i
    regroup (inr i) = inr (inr i)

    new_case :
        IsIn t (map (λ e. e.type) (d ∷ ds))
        → (IsIn t (map (λ e. e.type) ds)
            → IsIn t (d.type ∷ seen) ⊎ IsIn t (collect_types (d.type ∷ seen) ds))
        → IsIn t seen ⊎ IsIn t (d.type ∷ collect_types (d.type ∷ seen) ds)
    new_case (inl e) ih = inr (inl e)
    new_case (inr i) ih = regroup (ih i)

collect_types-Distinct :
    (ds : List Detection) (seen : List PatternType) → Distinct (collect_types seen ds)
collect_types-Distinct [] seen = unfold collect_types in tt
collect_types-Distinct (d ∷ ds) seen = elim (Bool-cases (seen_type d.type seen)) [
  | inl old ↦ rw (skip_seen seen d ds old) (collect_types-Distinct ds seen)
  | inr new ↦ rw (take_new seen d ds new) (
    (λ i. (collect_types-IsIn ds (d.type ∷ seen) d.type i).0 (inl refl)),
    collect_types-Distinct ds (d.type ∷ seen),
  )
]

-- The reported types are those of the detections, each once.
pub pattern_types_lem :
    (ds : List Detection)
    → Distinct (pattern_types ds)
      × ((t : PatternType) → IsIn t (pattern_types ds) ↔ IsIn t (map (λ d. d.type) ds))
unfolding pattern_types
pattern_types_lem ds = (
  collect_types-Distinct ds [],
  λ t. ((λ i. (collect_types-IsIn ds [] t i).1), (λ i. unfound t (IsIn-collect_types ds [] t i))),
)
  where
    unfound :
        (t : PatternType) → IsIn t [] ⊎ IsIn t (collect_types [] ds) → IsIn t (collect_types [] ds)
    unfound t (inl i) = elim i [ ]
    unfound t (inr i) = i

append_nonempty : {A : Type 0} (xs ys : List A) → (xs ≢ []) ⊎ (ys ≢ []) → xs ++ ys ≢ []
append_nonempty [] ys (inl h) e = absurd (h refl)
append_nonempty [] ys (inr h) e = h e
append_nonempty (x ∷ xs) ys h e = cc

module _ (spans : Regexp) (text : Bytes) where
  first_verifies-detect_spans :
      (p : Pattern) (places : List (ℕ × ℕ))
      → first_verifies spans text p places ≡ true
      → detect_spans spans text p places ≢ []
  unfolding first_verifies detect_spans
  first_verifies-detect_spans p [] h e = absurd (ground arith)
  first_verifies-detect_spans p ((lo, hi) ∷ rest) h e = ground arith

  any_of-detect_all :
      (ps : List Pattern)
      → any_of (λ p. first_verifies spans text p (spans p text)) ps ≡ true
      → detect_all spans text ps ≢ []
  unfolding detect_all
  any_of-detect_all [] h = absurd (ground arith)
  any_of-detect_all (p ∷ ps) h = elim (Bool-cases (first_verifies spans text p (spans p text))) [
    | inl y ↦
        append_nonempty (detect_spans spans text p (spans p text)) (detect_all spans text ps)
          (inl (first_verifies-detect_spans p (spans p text) y))
    | inr n ↦
        append_nonempty (detect_spans spans text p (spans p text)) (detect_all spans text ps)
          (inr (any_of-detect_all ps (ground arith)))
  ]

  -- What `HasPII` reports, `Detect` finds.
  pub has_pii-detect : has_pii spans text ≡ true → detect spans text ≢ []
  unfolding has_pii detect
  has_pii-detect = any_of-detect_all patterns
