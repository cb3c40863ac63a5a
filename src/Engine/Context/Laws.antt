-- ===== src/Engine/Context/Laws.antt =====
-- Which messages a request holds.
use mathlib.Core.List.{
  reverse, reverse-cons, reverse-append, reverse-reverse, append_assoc, append-nil,
}
use gogoclaw.Base.{
  ℕ, ◌+◌, ◌-◌, ◌≤◌, ◌<◌, ◌≡◌, refl, sym, ap, ◌∙◌, ltb, ◌⊎◌, inl, inr, List, [], ◌∷◌, ◌++◌, arith,
  Bool-cases,
}
use gogoclaw.Base.Bytes.{Bytes}
use gogoclaw.Provider.{Message, system_role, plain_message}
use gogoclaw.Engine.Context.{
  Assembler, estimate_tokens, enrich_with_memories, include_recent, history_budget, assemble,
}

module _ (ca : Assembler) where
  abbrev pub cost : List Message → ℕ
  cost [] = 0
  cost (m ∷ ms) = estimate_tokens ca m.content + cost ms

  cost-append : (xs ys : List Message) → cost (xs ++ ys) ≡ cost xs + cost ys
  cost-append [] ys = omega arith
  cost-append (x ∷ xs) ys = omega (arith, cost-append xs ys)

  cost-reverse : (xs : List Message) → cost (reverse xs) ≡ cost xs
  cost-reverse [] = refl
  cost-reverse (x ∷ xs) =
      ap cost (reverse-cons x xs)
      ∙ omega (arith, cost-append (reverse xs) (x ∷ []), cost-reverse xs)

  -- The next older message does not fit, or nothing is left of the budget, or there is none.
  abbrev pub IsFull : ℕ → List Message → List Message → Type 0
  IsFull budget kept [] = Unit {0}
  IsFull budget kept (m ∷ older) =
      (budget ≡ cost kept) ⊎ (budget < cost kept + estimate_tokens ca m.content)

  abbrev NewestPart : ℕ → List Message → List Message → Type 0
  NewestPart budget newest acc =
      (kept : List Message) × (dropped : List Message) × (newest ≡ kept ++ dropped)
      × (include_recent ca budget newest acc ≡ reverse kept ++ acc)
      × (cost kept ≤ budget)
      × IsFull budget kept dropped

  IsFull-cons :
      (budget : ℕ) (m : Message) (kept dropped : List Message)
      → estimate_tokens ca m.content ≤ budget
      → IsFull (budget - estimate_tokens ca m.content) kept dropped
      → IsFull budget (m ∷ kept) dropped
  IsFull-cons budget m kept [] h f = tt
  IsFull-cons budget m kept (d ∷ ds) h (inl e) = inl (omega arith)
  IsFull-cons budget m kept (d ∷ ds) h (inr e) = inr (omega arith)

  IsFull-cost :
      (budget : ℕ) (xs ys dropped : List Message)
      → cost xs ≡ cost ys
      → IsFull budget xs dropped
      → IsFull budget ys dropped
  IsFull-cost budget xs ys [] e f = tt
  IsFull-cost budget xs ys (d ∷ ds) e (inl h) = inl (omega arith)
  IsFull-cost budget xs ys (d ∷ ds) e (inr h) = inr (omega arith)

  include_recent-NewestPart :
      (newest : List Message) (budget : ℕ) (acc : List Message) → NewestPart budget newest acc
  unfolding include_recent
  include_recent-NewestPart [] budget acc = ([], [], refl, refl, omega arith, tt)
  include_recent-NewestPart (m ∷ older) budget acc =
      let tokens = estimate_tokens ca m.content in
      elim (Bool-cases (ltb 0 budget)) [
        | inr spent ↦ ([], m ∷ older, refl, ground arith, omega arith, inl (ground arith))
        | inl left ↦ elim (Bool-cases (ltb budget tokens)) [
          | inl large ↦ ([], m ∷ older, refl, ground arith, omega arith, inr (ground arith))
          | inr fits ↦
              let (kept, dropped, e, i, c, f) =
                include_recent-NewestPart older (budget - tokens) (m ∷ acc) in
              (
                m ∷ kept,
                dropped,
                ap (◌∷◌ m) e,
                ground (arith, reverse-cons m kept, append_assoc (reverse kept) (m ∷ []) acc),
                ground arith,
                IsFull-cons budget m kept dropped (ground arith) f,
              )
        ]
      ]

  abbrev pub prompt_part : Bytes → List Message
  prompt_part [] = []
  prompt_part (c ∷ cs) = plain_message system_role (c ∷ cs) ∷ []

  assemble-eq :
      (prompt : Bytes) (history : List Message) (overhead : ℕ)
      → let full = enrich_with_memories ca prompt history in
        assemble ca prompt history overhead
        ≡ prompt_part full
          ++ include_recent ca (history_budget ca full overhead) (reverse history) []
  unfolding assemble
  assemble-eq prompt history overhead = ground arith

  -- A request is the prompt with its memories, if there is any text in it, and then an unbroken
  -- run of the newest messages: they fit the budget, and it is spent or one more would not fit.
  pub assemble_recent :
      (prompt : Bytes) (history : List Message) (overhead : ℕ)
      → let full = enrich_with_memories ca prompt history in
        let budget = history_budget ca full overhead in
        (older : List Message) × (included : List Message) × (history ≡ reverse older ++ included)
        × (assemble ca prompt history overhead ≡ prompt_part full ++ included)
        × (cost included ≤ budget)
        × IsFull budget included older
  assemble_recent prompt history overhead =
      let full = enrich_with_memories ca prompt history in
      let budget = history_budget ca full overhead in
      let (kept, dropped, e, i, c, f) = include_recent-NewestPart (reverse history) budget [] in
      (
        dropped,
        reverse kept,
        sym (reverse-reverse history) ∙ ap reverse e ∙ reverse-append kept dropped,
        assemble-eq prompt history overhead
            ∙ ap (◌++◌ (prompt_part full)) (i ∙ append-nil (reverse kept)),
        omega (arith, cost-reverse kept),
        IsFull-cost budget kept (reverse kept) dropped (sym (cost-reverse kept)) f,
      )
