-- ===== src/Provider.antt =====
-- internal/provider/provider.go: what the engine and the language models exchange.
pub mod Router
mod Tests
use gogoclaw.Base.{List, [], Option}
use gogoclaw.Base.Bytes.{Bytes, bytes}

-- `Arguments` is raw JSON.
pub record ToolCall : Type 0 where
  pub id : Bytes
  pub name : Bytes
  pub arguments : Bytes

pub record Message : Type 0 where
  pub role : Bytes
  pub content : Bytes
  pub tool_calls : List ToolCall
  pub tool_call_id : Bytes

-- `Usage` is not read by the code modelled here.
pub record ChatResponse : Type 0 where
  pub content : Bytes
  pub tool_calls : List ToolCall

-- `Done` and the time are not read here.
pub record StreamChunk : Type 0 where
  pub content : Bytes
  pub tool_calls : List ToolCall
  pub error : Option Bytes

abbrev pub system_role : Bytes
system_role = bytes "system"

abbrev pub user_role : Bytes
user_role = bytes "user"

abbrev pub assistant_role : Bytes
assistant_role = bytes "assistant"

abbrev pub tool_role : Bytes
tool_role = bytes "tool"

-- A composite literal that gives `Role` and `Content` alone.
abbrev pub plain_message : Bytes → Bytes → Message
plain_message role content = record {
  role = role;
  content = content;
  tool_calls = [];
  tool_call_id = [];
}
