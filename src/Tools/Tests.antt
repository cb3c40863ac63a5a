-- ===== src/Tools/Tests.antt =====
-- A dispatcher with one tool that counts its calls.
use gogoclaw.Base.{ℕ, suc, ◌≡◌, refl, true, List, [], ◌∷◌, length}
use gogoclaw.Base.Bytes.{Bytes, bytes}
use gogoclaw.Base.Outcome.{ok}
use gogoclaw.Tools.Dispatcher.{
  ToolDef, Dispatcher, ToolCallRequest, Scene, find_tool, register, exec_one, dispatch,
}
use gogoclaw.Tools.Dispatcher.Laws.{
  IsAnswered, exec_one_unknown, dispatch-IsAnswered, length-dispatch,
}

abbrev clock : ToolDef ℕ
clock = record {
  name = bytes "clock";
  description = [];
  parameters = [];
  fn = λ args w. (ok (bytes "12:00"), suc w);
}

abbrev empty : Dispatcher ℕ
empty = record { tools = []; on_tool_call = true; on_result = true }

abbrev ready : Dispatcher ℕ
ready = register empty clock

abbrev request : Bytes → Bytes → ToolCallRequest
request id name = record { id = id; name = name; arguments = bytes "{}" }

abbrev batch : List ToolCallRequest
batch = request (bytes "a") (bytes "clock") ∷ request (bytes "b") (bytes "moon") ∷ []

abbrev scene : Scene ℕ
scene = record { world = 0; events = [] }

exec_one_unknown_example :
    ((exec_one empty (request (bytes "b") (bytes "moon")) scene).0.is_error ≡ true)
    × ((exec_one empty (request (bytes "b") (bytes "moon")) scene).1 ≡ scene)
unfolding find_tool
exec_one_unknown_example = exec_one_unknown empty (request (bytes "b") (bytes "moon")) scene refl

dispatch-IsAnswered_example :
    IsAnswered (dispatch ready batch (1 ∷ 0 ∷ []) scene).0 1 (request (bytes "b") (bytes "moon"))
dispatch-IsAnswered_example =
    dispatch-IsAnswered ready batch 1 (request (bytes "b") (bytes "moon")) refl (1 ∷ 0 ∷ []) scene
      refl

length-dispatch_example : length (dispatch ready batch (1 ∷ 0 ∷ []) scene).0 ≡ 2
length-dispatch_example = length-dispatch ready batch (1 ∷ 0 ∷ []) scene
