-- ===== src/Engine/Persisted/Laws.antt =====
-- The hook keeps the ledger of a turn.
use gogoclaw.Base.{
  ℕ, suc, ◌≡◌, refl, sym, ap, subst, ◌∙◌, ◌⊎◌, inl, inr, arith, true, Bool, false, Bool-cases,
  Option, none, some, Option-cases, List, [], ◌∷◌, ◌++◌, length, any_of, not, if◌then◌else◌,
}
use gogoclaw.Base.Bytes.{Bytes, bytes_eq, bytes_eq_iff}
use gogoclaw.Base.Outcome.{Outcome, ok, err, Outcome-cases}
use gogoclaw.Provider.{Message, ToolCall}
use gogoclaw.Storage.Encryption.{Crypto, IsSound}
use gogoclaw.Storage.Messages.{
  StoredMessage, Row, scrubbed, store_row, load_row, seal_text, seal_calls, aad_of,
}
use gogoclaw.Engine.Session.{Session}
use gogoclaw.Engine.Manager.{
  ManagerError, SessionManager, Stamp, statement_for, persist_message, write_row, to_stored,
  to_provider,
}
use gogoclaw.Engine.Manager.Laws.{IsFaithful, persisted_message}
use gogoclaw.Engine.Manager.Database.{
  Database, Faults, first_error, add_row, ensure_and_add_row, execute,
}
use gogoclaw.Engine.Turn.{Services}
use gogoclaw.Engine.Turn.Steps.{Ledger}
use gogoclaw.Engine.Persisted.{Setting, Persisted, manager_of, save, saved_in, persisted}

-- How a call of the store can end for the table of messages.
abbrev Added : Row → Database → Option Bytes × Database → Type 0
Added row db r =
    (r.0 ≡ none → r.1.messages ≡ db.messages ++ (row ∷ []))
    × ((r.1.messages ≡ db.messages) ⊎ (r.1.messages ≡ db.messages ++ (row ∷ [])))

ensure_and_add_row-Added :
    (f : Faults) (conv : Bytes) (row : Row) (db : Database)
    → Added row db (ensure_and_add_row f conv row db)
unfolding ensure_and_add_row
ensure_and_add_row-Added f conv row db =
    let is_new = not (any_of (bytes_eq conv) db.conversations) in
    elim (Option-cases (
      first_error (
        f.begin
        ∷ f.count
        ∷ (if is_new then f.create else none)
        ∷ f.insert
        ∷ f.touch
        ∷ f.commit
        ∷ []))) [
          | inl e ↦ rw (e, ensure_and_add_row) ((λ h. refl), inr refl)
          | inr (text, e) ↦ rw (e, ensure_and_add_row) ((λ h. absurd (cc)), inl refl)
        ]

execute-Added :
    (f : Faults) (known : Bool) (s : Session) (row : Row) (db : Database)
    → Added row db (execute f (statement_for known s row) db)
unfolding execute add_row
execute-Added f true s row db = elim (Option-cases f.insert) [
  | inl e ↦ rw (e, execute, add_row) ((λ h. refl), inr refl)
  | inr (text, e) ↦ rw (e, execute, add_row) ((λ h. absurd (cc)), inl refl)
]
execute-Added f false s row db = ensure_and_add_row-Added f s.conversation_id row db

store_row-conversation_id :
    (C : Crypto) (key : Bytes) (E : Setting) (stamp : Stamp) (m : StoredMessage) (row : Row)
    → store_row C (some key) E.store.scrubber stamp.nonces.0 stamp.nonces.1 m ≡ ok row
    → row.message.conversation_id ≡ m.conversation_id
unfolding store_row
store_row-conversation_id C key E stamp m row h =
    elim (Outcome-cases
      (seal_text C key stamp.nonces.0 (aad_of C m) (scrubbed E.store.scrubber m.content))) [
        | inr (x, e) ↦ absurd (ground (arith, h, e))
        | inl (c, e) ↦
            elim (Outcome-cases (seal_calls C key stamp.nonces.1 (aad_of C m) m.tool_calls)) [
              | inr (x, e1) ↦ absurd (ground (arith, h, e, e1))
              | inl (t, e1) ↦ ground (arith, h, e, e1)
            ]
      ]

module _ (E : Setting) where
  saved_in-append :
      (c : Bytes) (rs : List Row) (r : Row)
      → saved_in E c (rs ++ (r ∷ [])) ≡ saved_in E c rs ++ saved_in E c (r ∷ [])
  unfolding saved_in
  saved_in-append c [] r = refl
  saved_in-append c (x ∷ xs) r = elim (Bool-cases (bytes_eq x.message.conversation_id c)) [
    | inr e ↦ rw (e, saved_in) (saved_in-append c xs r)
    | inl e ↦ elim (Outcome-cases (load_row E.store.crypto E.store.key x)) [
      | inl (m, f) ↦
          rw (e, saved_in, f) (ap (λ ms. to_provider E.json m ∷ ms) (saved_in-append c xs r))
      | inr (y, f) ↦ rw (e, saved_in, f) (saved_in-append c xs r)
    ]
  ]

  saved_in-one :
      (row : Row) (m : StoredMessage) (c : Bytes)
      → row.message.conversation_id ≡ c
      → load_row E.store.crypto E.store.key row ≡ ok m
      → saved_in E c (row ∷ []) ≡ to_provider E.json m ∷ []
  unfolding saved_in
  saved_in-one row m c same loaded =
      let here : bytes_eq row.message.conversation_id c ≡ true =
        (bytes_eq_iff row.message.conversation_id c).1 same in
      rw (here, saved_in, loaded) refl

  -- What is read back of a message.
  abbrev pub view : Message → Message
  view m = record m { content = scrubbed E.store.scrubber m.content }

  module _ {W : Type 0} (s : Session) (m : Message) (w : Persisted W) where
    -- What is read of the conversation is followed by the message.
    abbrev pub Grows : Persisted W → Type 0
    Grows w' =
        saved_in E s.conversation_id w'.database.messages
        ≡ saved_in E s.conversation_id w.database.messages ++ (view m ∷ [])

    abbrev pub Same : Persisted W → Type 0
    Same w' =
        saved_in E s.conversation_id w'.database.messages
        ≡ saved_in E s.conversation_id w.database.messages

  module _ (sound : IsSound E.store.crypto) (key : Bytes) (keyed : E.store.key ≡ some key)
      (fits : E.store.crypto.accepts key ≡ true)
      (faithful : (calls : List ToolCall) → IsFaithful E.json calls)
      (draws : (k : ℕ)
        → (n1 : Bytes) × (n2 : Bytes) × ((E.stamp k).nonces ≡ (some n1, some n2))
          × (length n1 ≡ 12)
          × (length n2 ≡ 12)) where
    sealed_row :
        (k : ℕ) (s : Session) (m : Message)
        → (row : Row) × (store_row E.store.crypto E.store.key E.store.scrubber
              (E.stamp k).nonces.0
              (E.stamp k).nonces.1
              (to_stored E.json s m (E.stamp k).id (E.stamp k).now)
            ≡ ok row)
          × (saved_in E s.conversation_id (row ∷ []) ≡ view m ∷ [])
    unfolding to_stored
    sealed_row k s m =
        let (n1, n2, drawn, len1, len2) = draws k in
        let msg = to_stored E.json s m (E.stamp k).id (E.stamp k).now in
        let (row, stored, sealed, loaded, same) =
          persisted_message E.json E.store.crypto sound key E.store.scrubber s m (E.stamp k).id n1
            n2 (E.stamp k).now (faithful m.tool_calls) fits len1 len2 in
        let sealed' : store_row E.store.crypto (some key) E.store.scrubber (E.stamp k).nonces.0
              (E.stamp k).nonces.1 msg
            ≡ ok row =
          rw drawn sealed in
        (
          row,
          rw keyed sealed',
          saved_in-one row stored s.conversation_id
                (store_row-conversation_id E.store.crypto key E (E.stamp k) msg row sealed')
                (rw keyed loaded)
              ∙ ap (λ x. x ∷ []) same,
        )

    module _ {W : Type 0} (s : Session) (m : Message) (w : Persisted W) where
      -- The hook stores the message, or fails and stores it or not.
      abbrev Claim : Option Bytes × Persisted W → Type 0
      Claim r =
          (r.0 ≡ none → Grows s m w r.1)
          × (Same s m w r.1 ⊎ Grows s m w r.1)
          × (r.1.chats ≡ w.chats)

      abbrev finish :
          Outcome ManagerError (Unit {0}) × SessionManager × Database → Option Bytes × Persisted W
      finish p =
          let w' = record w {
            known = p.1.known_conversations;
            database = p.2;
            tick = suc w.tick;
          } in
          elim p.0 [ ok _ ↦ (none, w') | err e ↦ (some (E.text_of e), w') ]

      write_row-Claim :
          (row : Row)
          → saved_in E s.conversation_id (row ∷ []) ≡ view m ∷ []
          → Claim (finish (write_row (execute (E.faults w.tick)) (manager_of w) s row w.database))
      unfolding write_row
      write_row-Claim row read =
          let known = any_of (bytes_eq s.conversation_id) w.known in
          let f = E.faults w.tick in
          let (fine, either) = execute-Added f known s row w.database in
          let r = execute f (statement_for known s row) w.database in
          let grows : r.1.messages ≡ w.database.messages ++ (row ∷ [])
              → saved_in E s.conversation_id r.1.messages
                ≡ saved_in E s.conversation_id w.database.messages ++ (view m ∷ []) =
            λ e.
              ap (saved_in E s.conversation_id) e
              ∙ saved_in-append s.conversation_id w.database.messages row
              ∙ ap (λ (x : List Message). saved_in E s.conversation_id w.database.messages ++ x)
                  read in
          elim (Option-cases r.0) [
            | inl e ↦ rw (e, write_row) ((λ h. grows (fine e)), inr (grows (fine e)), refl)
            | inr (text, e) ↦
                rw (e, write_row)
                  (
                    (λ h. absurd (cc)),
                    elim either [
                      | inl same ↦ inl (ap (saved_in E s.conversation_id) same)
                      | inr more ↦ inr (grows more)
                    ],
                    refl,
                  )
          ]

      save-Claim : Claim (save E s m w)
      unfolding save persist_message
      save-Claim =
          let (row, sealed, read) = sealed_row w.tick s m in
          let written : persist_message (execute (E.faults w.tick)) E.json E.store (E.stamp w.tick)
                (manager_of w) s m w.database
              ≡ write_row (execute (E.faults w.tick)) (manager_of w) s row w.database =
            (rw (sealed, persist_message) refl) in
          subst (λ p. Claim (finish p)) (sym written) (write_row-Claim row read)

    -- The hook of a manager with an encrypting store keeps the ledger: with a sound cipher that
    -- accepts the key, nonces of twelve bytes and tool calls that JSON reads back as it wrote them,
    -- whatever statements fail and whatever the provider and the tools do.
    pub persisted-Ledger : (inner : Services) → Ledger (persisted E inner)
    persisted-Ledger inner = record {
      saved = λ c w. saved_in E c w.database.messages;
      view = view;
      chats = λ w. w.chats;
      saved-chat = λ ms w c. refl;
      chats-chat = λ ms w. refl;
      saved-chat_stream = λ ms w c. refl;
      chats-chat_stream = λ ms w. refl;
      saved-dispatch = λ calls w c. refl;
      chats-dispatch = λ calls w. refl;
      saved-on_message = λ s m w h. (save-Claim s m w).0 h;
      saved-on_message_failed = λ s m w h. (save-Claim s m w).1;
      chats-on_message = λ s m w. (save-Claim s m w).2;
    }
