-- ===== src/Tools/Dispatcher.antt =====
-- internal/tools/dispatcher.go: registration of tools, and the execution of a batch of calls. The
-- goroutines of a batch finish in any order; a schedule lists the order in which they run.
pub mod Laws
use gogoclaw.Base.{
  ℕ, zero, suc, Bool, true, false, Option, none, some, List, [], ◌∷◌, ◌++◌, map, if◌then◌else◌,
  get_elem?,
}
use gogoclaw.Base.Bytes.{Bytes, bytes, bytes_eq}
use gogoclaw.Base.Outcome.{Outcome, ok, err}

pub record ToolCallRequest : Type 0 where
  pub id : Bytes
  pub name : Bytes
  pub arguments : Bytes

pub record ToolCallResult : Type 0 where
  pub call_id : Bytes
  pub content : Bytes
  pub is_error : Bool

abbrev finish : Bytes → Outcome Bytes Bytes → ToolCallResult
finish id (ok content) = record { call_id = id; content = content; is_error = false }
finish id (err e) = record { call_id = id; content = e; is_error = true }

-- `results[idx] = …`
store_at : List (Option ToolCallResult) → ℕ → ToolCallResult → List (Option ToolCallResult)
store_at [] i r = []
store_at (x ∷ xs) zero r = some r ∷ xs
store_at (x ∷ xs) (suc i) r = x ∷ store_at xs i r

-- What the observer callbacks see.
pub data Event : Type 0 where
  called : Bytes → Bytes → Event
  returned : Bytes → Bytes → Bytes → Bool → Event

-- `W` is what the tools act on: files, network, memory.
module _ (W : Type 0) where
  pub record ToolDef : Type 0 where
    pub name : Bytes
    pub description : Bytes
    pub parameters : Bytes
    pub fn : Bytes → W → Outcome Bytes Bytes × W

  pub record Dispatcher : Type 0 where
    pub tools : List ToolDef
    pub on_tool_call : Bool
    pub on_result : Bool

  -- The world, and what the callbacks have seen.
  pub record Scene : Type 0 where
    pub world : W
    pub events : List Event

module _ {W : Type 0} where
  unfoldable pub find_tool : Bytes → List (ToolDef W) → Option (ToolDef W)
  find_tool name [] = none
  find_tool name (t ∷ ts) = if bytes_eq t.name name then some t else find_tool name ts

  put_tool : ToolDef W → List (ToolDef W) → List (ToolDef W)
  put_tool t [] = t ∷ []
  put_tool t (u ∷ us) = if bytes_eq u.name t.name then t ∷ us else u ∷ put_tool t us

  unfoldable pub register : Dispatcher W → ToolDef W → Dispatcher W
  unfolding put_tool
  register d t = record d { tools = put_tool t d.tools }

  unfoldable pub set_callbacks : Dispatcher W → Bool → Bool → Dispatcher W
  set_callbacks d on_call on_result = record d { on_tool_call = on_call; on_result = on_result }

  abbrev observe : Bool → Event → Scene W → Scene W
  observe set e s = if set then record s { events = s.events ++ (e ∷ []) } else s

  run_tool : Dispatcher W → ToolCallRequest → ToolDef W → Scene W → ToolCallResult × Scene W
  run_tool d call tool s =
      let before = observe d.on_tool_call (called call.name call.arguments) s in
      let (answer, world) = tool.fn call.arguments before.world in
      let r = finish call.id answer in
      (
        r,
        observe d.on_result (returned call.name call.id r.content r.is_error)
            (record before { world = world }),
      )

  unfoldable pub exec_one : Dispatcher W → ToolCallRequest → Scene W → ToolCallResult × Scene W
  unfolding find_tool run_tool
  exec_one d call s = elim (find_tool call.name d.tools) [
    | none ↦ (
      record { call_id = call.id; content = bytes "unknown tool: " ++ call.name; is_error = true },
      s,
    )
    | some tool ↦ run_tool d call tool s
  ]

  run_goroutine :
      Dispatcher W
      → List ToolCallRequest
      → ℕ
      → List (Option ToolCallResult) × Scene W
      → List (Option ToolCallResult) × Scene W
  unfolding exec_one store_at
  run_goroutine d calls i (results, s) = elim (get_elem? calls i) [
    | none ↦ (results, s)
    | some call ↦ let (r, s') = exec_one d call s in (store_at results i r, s')
  ]

  run_schedule :
      Dispatcher W
      → List ToolCallRequest
      → List ℕ
      → List (Option ToolCallResult) × Scene W
      → List (Option ToolCallResult) × Scene W
  unfolding run_goroutine
  run_schedule d calls [] st = st
  run_schedule d calls (i ∷ is) st = run_schedule d calls is (run_goroutine d calls i st)

  -- The results that `wg.Wait` leaves, a cell that no goroutine wrote being `none`.
  unfoldable pub dispatch :
      Dispatcher W
      → List ToolCallRequest
      → List ℕ
      → Scene W
      → List (Option ToolCallResult) × Scene W
  unfolding run_schedule
  dispatch d calls schedule s = run_schedule d calls schedule (map (λ _. none) calls, s)
