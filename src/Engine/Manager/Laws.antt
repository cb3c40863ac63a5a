-- ===== src/Engine/Manager/Laws.antt =====
-- One session for each key, and messages that survive the store.
use gogoclaw.Base.{
  ℕ, ◌≡◌, refl, ap, inl, inr, arith, true, Bool-cases, Option, some, List, [], ◌∷◌, length,
  Option-cases,
}
use gogoclaw.Base.Bytes.{Bytes, bytes_eq_refl}
use gogoclaw.Base.Outcome.{ok, Outcome-cases}
use gogoclaw.Provider.{Message, ToolCall}
use gogoclaw.Storage.Encryption.{Crypto, IsSound}
use gogoclaw.Storage.Messages.{StoredMessage, Row, Scrubber, scrubbed, store_row, load_row}
use gogoclaw.Storage.Messages.Laws.{load_row-store_row}
use gogoclaw.Engine.Session.{Session}
use gogoclaw.Engine.Manager.{
  SessionManager, Json, Store, same_key, find_session, get, to_provider, get_messages,
  from_messages, load_session, get_or_create, to_stored, read_calls, write_calls,
}

module _ (json : Json) (store : Store) (m : SessionManager) (channel conv : Bytes) where
  from_messages-get :
      (msgs : List StoredMessage)
      → let (s, m') = from_messages json m channel conv msgs in get m' channel conv ≡ some s
  unfolding from_messages get find_session same_key
  from_messages-get [] = ground (arith, bytes_eq_refl channel, bytes_eq_refl conv)
  from_messages-get (x ∷ xs) = ground (arith, bytes_eq_refl channel, bytes_eq_refl conv)

  load_session-get :
      {s : Session} {m' : SessionManager}
      → load_session json store m channel conv ≡ (ok s, m')
      → get m' channel conv ≡ some s
  unfolding load_session
  load_session-get h = elim (Bool-cases m.has_store) [
    | inr n ↦ ground (arith, from_messages-get [])
    | inl y ↦ elim (Outcome-cases (get_messages store conv)) [
      | inl (msgs, e) ↦ ground (arith, from_messages-get msgs)
      | inr (x, e) ↦ absurd (ground arith)
    ]
  ]

  -- A session that was handed out is the one that is handed out again for its key, without
  -- another read of the store and without a change of the manager.
  pub get_or_create_again :
      {s : Session} {m' : SessionManager}
      → get_or_create json store m channel conv ≡ (ok s, m')
      → (get m' channel conv ≡ some s) × (get_or_create json store m' channel conv ≡ (ok s, m'))
  unfolding get_or_create
  get_or_create_again {s} {m'} h = elim (Option-cases (get m channel conv)) [
    | inl new ↦ ground (arith, load_session-get {s = s} {m' = m'} (ground arith))
    | inr (old, e) ↦ ground arith
  ]

-- What is relied on of JSON for some tool calls: they are read back as they were written, from a
-- text that is not empty.
abbrev pub IsFaithful : Json → List ToolCall → Type 0
IsFaithful json [] = Unit {0}
IsFaithful json (c ∷ cs) =
    (b : ℕ) × (bs : Bytes) × (json.marshal (c ∷ cs) ≡ some (b ∷ bs))
    × (json.unmarshal (b ∷ bs) ≡ some (c ∷ cs))

read_calls-write_calls :
    (json : Json) (calls : List ToolCall)
    → IsFaithful json calls
    → read_calls json (write_calls json calls) ≡ calls
unfolding read_calls write_calls
read_calls-write_calls json [] faithful = refl
read_calls-write_calls json (c ∷ cs) faithful =
    let (b, bs, written, read) = faithful in rw (written, write_calls, read, read_calls) refl

-- With a sound cipher that accepts the key, nonces of twelve bytes, and tool calls that JSON
-- reads back as it wrote them, a message that is written to the store is read back into a
-- history as it was said, with its tool calls and the call that it answers, but for its content,
-- which is as the scrubber left it.
pub persisted_message :
    (json : Json) (C : Crypto) (sound : IsSound C) (key : Bytes) (scrubber : Option Scrubber)
    (s : Session) (msg : Message) (id n1 n2 : Bytes) (now : ℕ)
    → IsFaithful json msg.tool_calls
    → C.accepts key ≡ true
    → length n1 ≡ 12
    → length n2 ≡ 12
    → (row : Row) × (stored : StoredMessage) × (store_row C
          (some key)
          scrubber
          (some n1)
          (some n2)
          (to_stored json s msg id now)
        ≡ ok row)
      × (load_row C (some key) row ≡ ok stored)
      × (to_provider json stored ≡ record msg { content = scrubbed scrubber msg.content })
unfolding to_stored to_provider
persisted_message json C sound key scrubber s msg id n1 n2 now faithful fits len1 len2 =
    let m = to_stored json s msg id now in
    let (row, stored, marked, loaded) =
      load_row-store_row C sound key fits scrubber n1 n2 m len1 len2 in
    (
      row,
      record m { content = scrubbed scrubber m.content },
      stored,
      loaded,
      ap (λ c. record msg { content = scrubbed scrubber msg.content; tool_calls = c })
          (read_calls-write_calls json msg.tool_calls faithful),
    )
