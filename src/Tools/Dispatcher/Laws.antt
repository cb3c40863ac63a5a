-- ===== src/Tools/Dispatcher/Laws.antt =====
-- The results of a batch, and the calls of unknown tools.
use gogoclaw.Base.{
  ℕ, zero, suc, ◌<◌, ◌≡◌, refl, true, sym, subst, ap, ◌∙◌, inl, inr, Option, none, some, List, [],
  ◌∷◌, map, arith, length, get_elem?, any_of, ◌==◌, ==_iff, if◌then◌else◌, Option-cases, Bool-cases,
}
use gogoclaw.Tools.Dispatcher.{
  Dispatcher, ToolCallRequest, ToolCallResult, Scene, find_tool, exec_one, store_at, run_goroutine,
  run_schedule, dispatch,
}

length-store_at :
    (xs : List (Option ToolCallResult)) (i : ℕ) (r : ToolCallResult)
    → length (store_at xs i r) ≡ length xs
unfolding store_at
length-store_at [] i r = refl
length-store_at (x ∷ xs) zero r = refl
length-store_at (x ∷ xs) (suc i) r = ap suc (length-store_at xs i r)

get_elem?-store_at :
    (xs : List (Option ToolCallResult)) (i j : ℕ) (r : ToolCallResult)
    → j < length xs
    → get_elem? (store_at xs i r) j ≡ (if i == j then some (some r) else get_elem? xs j)
unfolding store_at
get_elem?-store_at [] i j r h = absurd (omega arith)
get_elem?-store_at (x ∷ xs) zero zero r h = refl
get_elem?-store_at (x ∷ xs) zero (suc j) r h = ground arith
get_elem?-store_at (x ∷ xs) (suc i) zero r h = ground arith
get_elem?-store_at (x ∷ xs) (suc i) (suc j) r h =
    ground (arith, get_elem?-store_at xs i j r (omega arith))

length-empty_cells :
    (calls : List ToolCallRequest)
    → length (map {B = Option ToolCallResult} (λ _. none) calls) ≡ length calls
length-empty_cells [] = refl
length-empty_cells (c ∷ cs) = ap suc (length-empty_cells cs)

get_elem?-lt :
    (calls : List ToolCallRequest) (i : ℕ) {c : ToolCallRequest}
    → get_elem? calls i ≡ some c
    → i < length calls
get_elem?-lt [] i h = cc
get_elem?-lt (x ∷ xs) zero h = omega arith
get_elem?-lt (x ∷ xs) (suc i) h = omega (arith, get_elem?-lt xs i h)

-- Cell `i` holds an answer to `call`.
abbrev pub IsAnswered : List (Option ToolCallResult) → ℕ → ToolCallRequest → Type 0
IsAnswered results i call =
    (r : ToolCallResult) × (get_elem? results i ≡ some (some r)) × (r.call_id ≡ call.id)

module _ {W : Type 0} where
  exec_one-call_id :
      (d : Dispatcher W) (call : ToolCallRequest) (s : Scene W)
      → (exec_one d call s).0.call_id ≡ call.id
  unfolding exec_one
  exec_one-call_id d call s = ground arith

  -- A call of a tool that is not registered is an error result that names it, and neither the
  -- world nor the callbacks hear of it.
  pub exec_one_unknown :
      (d : Dispatcher W) (call : ToolCallRequest) (s : Scene W)
      → find_tool call.name d.tools ≡ none
      → ((exec_one d call s).0.is_error ≡ true) × ((exec_one d call s).1 ≡ s)
  unfolding exec_one
  exec_one_unknown d call s h = ground arith

  module _ (d : Dispatcher W) (calls : List ToolCallRequest) (i : ℕ) (call : ToolCallRequest)
      (here : get_elem? calls i ≡ some call) where
    run_goroutine_self :
        (results : List (Option ToolCallResult)) (s : Scene W)
        → length results ≡ length calls
        → IsAnswered (run_goroutine d calls i (results, s)).0 i call
    unfolding run_goroutine
    run_goroutine_self results s len = (
      (exec_one d call s).0,
      rw (here, run_goroutine)
          (ground (
            arith,
            get_elem?-lt calls i here,
            get_elem?-store_at results i i (exec_one d call s).0
                (omega (arith, get_elem?-lt calls i here)),
          )),
      exec_one-call_id d call s,
    )

  length-run_goroutine :
      (d : Dispatcher W) (calls : List ToolCallRequest) (j : ℕ)
      (results : List (Option ToolCallResult)) (s : Scene W)
      → length (run_goroutine d calls j (results, s)).0 ≡ length results
  unfolding run_goroutine
  length-run_goroutine d calls j results s = elim (Option-cases (get_elem? calls j)) [
    | inl e ↦ rw (e, run_goroutine)
    | inr (c, e) ↦ rw (e, run_goroutine) (length-store_at results j (exec_one d c s).0)
  ]

  length-run_schedule :
      (d : Dispatcher W) (calls : List ToolCallRequest) (is : List ℕ)
      (results : List (Option ToolCallResult)) (s : Scene W)
      → length (run_schedule d calls is (results, s)).0 ≡ length results
  unfolding run_schedule
  length-run_schedule d calls [] results s = refl
  length-run_schedule d calls (j ∷ is) results s =
      length-run_schedule d calls is (run_goroutine d calls j (results, s)).0
        (run_goroutine d calls j (results, s)).1
      ∙ length-run_goroutine d calls j results s

  module _ (d : Dispatcher W) (calls : List ToolCallRequest) (i : ℕ) (call : ToolCallRequest)
      (here : get_elem? calls i ≡ some call) where
    -- A cell once written holds an answer to its call, whichever goroutine runs next.
    run_goroutine_keeps :
        (j : ℕ) (results : List (Option ToolCallResult)) (s : Scene W)
        → length results ≡ length calls
        → IsAnswered results i call
        → IsAnswered (run_goroutine d calls j (results, s)).0 i call
    run_goroutine_keeps j results s len (r, at_i, same) = elim (Bool-cases (j == i)) [
      | inl e ↦
          subst (λ k. IsAnswered (run_goroutine d calls k (results, s)).0 i call)
            (sym ((==_iff j i).0 e)) (run_goroutine_self d calls i call here results s len)
      | inr ne ↦ elim (Option-cases (get_elem? calls j)) [
        | inl e ↦ (r, unfold run_goroutine in rw (e, run_goroutine) at_i, same)
        | inr (c, e) ↦ (
          r,
          unfold run_goroutine in
              rw (e, run_goroutine)
                (ground (
                  arith,
                  get_elem?-store_at results j i (exec_one d c s).0
                      (omega (arith, get_elem?-lt calls i here)),
                )),
          same,
        )
      ]
    ]

    run_schedule_keeps :
        (is : List ℕ) (results : List (Option ToolCallResult)) (s : Scene W)
        → length results ≡ length calls
        → IsAnswered results i call
        → IsAnswered (run_schedule d calls is (results, s)).0 i call
    unfolding run_schedule
    run_schedule_keeps [] results s len a = a
    run_schedule_keeps (j ∷ is) results s len a =
        run_schedule_keeps is (run_goroutine d calls j (results, s)).0
          (run_goroutine d calls j (results, s)).1 (length-run_goroutine d calls j results s ∙ len)
          (run_goroutine_keeps j results s len a)

    run_schedule-IsAnswered :
        (is : List ℕ) (results : List (Option ToolCallResult)) (s : Scene W)
        → length results ≡ length calls
        → any_of (λ j. j == i) is ≡ true
        → IsAnswered (run_schedule d calls is (results, s)).0 i call
    unfolding run_schedule
    run_schedule-IsAnswered [] results s len found = cc
    run_schedule-IsAnswered (j ∷ is) results s len found =
        let next = run_goroutine d calls j (results, s) in
        let len' = length-run_goroutine d calls j results s ∙ len in
        elim (Bool-cases (j == i)) [
          | inl e ↦ run_schedule_keeps is next.0 next.1 len' (
              subst (λ k. IsAnswered (run_goroutine d calls k (results, s)).0 i call)
                (sym ((==_iff j i).0 e)) (run_goroutine_self d calls i call here results s len))
          | inr ne ↦ run_schedule-IsAnswered is next.0 next.1 len' (ground arith)
        ]

    -- In whatever order the goroutines run, and however they interfere through the world, each
    -- call that is scheduled has an answer with its own id in its own cell.
    pub dispatch-IsAnswered :
        (schedule : List ℕ) (s : Scene W)
        → any_of (λ j. j == i) schedule ≡ true
        → IsAnswered (dispatch d calls schedule s).0 i call
    unfolding dispatch
    dispatch-IsAnswered schedule s found =
        run_schedule-IsAnswered schedule (map (λ _. none) calls) s (length-empty_cells calls) found

  -- There is a cell for each call and no other.
  pub length-dispatch :
      (d : Dispatcher W) (calls : List ToolCallRequest) (schedule : List ℕ) (s : Scene W)
      → length (dispatch d calls schedule s).0 ≡ length calls
  unfolding dispatch
  length-dispatch d calls schedule s =
      length-run_schedule d calls schedule (map (λ _. none) calls) s ∙ length-empty_cells calls
