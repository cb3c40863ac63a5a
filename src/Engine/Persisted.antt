-- ===== src/Engine/Persisted.antt =====
-- internal/engine/persistence.go as the hook of a turn: `persistMessage` of a manager that has a
-- store, over the database. A manager without a store saves nothing and reports success, so that
-- it is no hook of this kind.
pub mod Laws
mod Tests
use gogoclaw.Base.{ℕ, suc, true, if◌then◌else◌, Option, none, some, List, [], ◌∷◌}
use gogoclaw.Base.Bytes.{Bytes, bytes_eq}
use gogoclaw.Base.Outcome.{Outcome, ok, err}
use gogoclaw.Provider.{Message}
use gogoclaw.Storage.Messages.{Row, load_row}
use gogoclaw.Engine.Session.{Session}
use gogoclaw.Engine.Manager.{
  SessionManager, Json, Store, ManagerError, Stamp, persist_message, to_provider,
}
use gogoclaw.Engine.Manager.Database.{Database, Faults, execute}
use gogoclaw.Engine.Turn.{Services}

-- What the manager knows, the database, how often the hook was called, the calls of the provider,
-- and the world of the provider and the tools.
pub record Persisted (W : Type 0) : Type 0 where
  pub known : List Bytes
  pub database : Database
  pub tick : ℕ
  pub chats : ℕ
  pub outer : W

abbrev pub manager_of : {W : Type 0} → Persisted W → SessionManager
manager_of w = record { sessions = []; known_conversations = w.known; has_store = true }

-- The stamps and the faults are those of the hook's calls.
pub record Setting : Type 0 where
  pub json : Json
  pub store : Store
  pub text_of : ManagerError → Bytes
  pub stamp : ℕ → Stamp
  pub faults : ℕ → Faults

module _ (E : Setting) where
  -- The three methods of the hook.
  unfoldable pub save : {W : Type 0} → Session → Message → Persisted W → Option Bytes × Persisted W
  unfolding persist_message execute
  save s m w =
      let (o, manager, database) =
        persist_message (execute (E.faults w.tick)) E.json E.store (E.stamp w.tick) (manager_of w) s
          m w.database in
      let w' = record w {
        known = manager.known_conversations;
        database = database;
        tick = suc w.tick;
      } in
      elim o [ ok _ ↦ (none, w') | err e ↦ (some (E.text_of e), w') ]

  -- The messages of a conversation that can be read, in the order in which they were inserted.
  unfoldable pub saved_in : Bytes → List Row → List Message
  unfolding bytes_eq load_row to_provider
  saved_in c [] = []
  saved_in c (r ∷ rs) =
      let rest = saved_in c rs in
      if bytes_eq r.message.conversation_id c
      then (elim (load_row E.store.crypto E.store.key r) [
        | ok m ↦ to_provider E.json m ∷ rest
        | err e ↦ rest
      ])
      else rest

  -- A provider and tools that do not touch the database, with this hook.
  abbrev pub persisted : Services → Services
  persisted inner = record {
    World = Persisted inner.World;
    chat = λ ms w.
        let (answer, outer) = inner.chat ms w.outer in
        (answer, record w { outer = outer; chats = suc w.chats });
    chat_stream = λ ms w.
        let (answer, outer) = inner.chat_stream ms w.outer in
        (answer, record w { outer = outer; chats = suc w.chats });
    dispatch = λ calls w.
        let (results, outer) = inner.dispatch calls w.outer in
        (results, record w { outer = outer });
    on_message = λ s m w. save s m w;
  }
