-- ===== src/Engine/Turn/Steps.antt =====
-- What a turn relies on of the persistence hook, and the steps that keep the session and the
-- store alike.
use mathlib.Core.List.{append_assoc, append-nil, map-append}
use gogoclaw.Base.{
  ℕ, suc, ◌+◌, ◌≤◌, ◌≡◌, refl, sym, ap, subst, ◌∙◌, true, inl, inr, ◌⊎◌, length, none, some, List,
  [], ◌∷◌, ◌++◌, map, arith, Bool, false, if◌then◌else◌,
}
use gogoclaw.Base.Bytes.{Bytes}
use gogoclaw.Base.Outcome.{Outcome, ok, err, Outcome-cases}
use gogoclaw.Provider.{Message}
use gogoclaw.Tools.Dispatcher.{ToolCallRequest}
use gogoclaw.Engine.Session.{Session}
use gogoclaw.Engine.Turn.{Services, EngineError, Turn, M, ◌>>=◌, ◌>>◌, pure, fail}

-- What the engine relies on: a message that is stored is read back at the end of its conversation,
-- as its `view`; a hook that reports success has stored the message, one that reports an error has
-- stored it or has not, and nobody else stores. `chats` counts the calls of the provider.
pub record Ledger (S : Services) : Type 0 where
  pub saved : Bytes → S.World → List Message
  pub view : Message → Message
  pub chats : S.World → ℕ
  pub saved-chat :
      (ms : List Message) (w : S.World) (c : Bytes) → saved c (S.chat ms w).1 ≡ saved c w
  pub chats-chat : (ms : List Message) (w : S.World) → chats (S.chat ms w).1 ≡ suc (chats w)
  pub saved-chat_stream :
      (ms : List Message) (w : S.World) (c : Bytes) → saved c (S.chat_stream ms w).1 ≡ saved c w
  pub chats-chat_stream :
      (ms : List Message) (w : S.World) → chats (S.chat_stream ms w).1 ≡ suc (chats w)
  pub saved-dispatch :
      (calls : List ToolCallRequest) (w : S.World) (c : Bytes)
      → saved c (S.dispatch calls w).1 ≡ saved c w
  pub chats-dispatch :
      (calls : List ToolCallRequest) (w : S.World) → chats (S.dispatch calls w).1 ≡ chats w
  pub saved-on_message :
      (s : Session) (m : Message) (w : S.World)
      → (S.on_message s m w).0 ≡ none
      → saved s.conversation_id (S.on_message s m w).1 ≡ saved s.conversation_id w ++ (view m ∷ [])
  pub saved-on_message_failed :
      (s : Session) (m : Message) (w : S.World) {text : Bytes}
      → (S.on_message s m w).0 ≡ some text
      → (saved s.conversation_id (S.on_message s m w).1 ≡ saved s.conversation_id w)
        ⊎ (saved s.conversation_id (S.on_message s m w).1
            ≡ saved s.conversation_id w ++ (view m ∷ []))
  pub chats-on_message :
      (s : Session) (m : Message) (w : S.World) → chats (S.on_message s m w).1 ≡ chats w

abbrev pub IsOk : {A : Type 0} → Outcome EngineError A → Type 0
IsOk (ok a) = Unit {0}
IsOk (err x) = ⊥

abbrev pub IsErr : {A : Type 0} → Outcome EngineError A → Type 0
IsErr (ok a) = ⊥
IsErr (err x) = Unit {0}

pub either_way : {A B : Type 0} (o : Outcome EngineError A) → (IsOk o → B) → IsErr o ⊎ B
either_way (ok a) f = inr (f tt)
either_way (err x) f = inl tt

module _ {S : Services} (L : Ledger S) where
  -- From `t` to `u` the stored conversation has grown by the messages that were added to the
  -- session, and by one more at most, and the provider was called `k` times at most.
  pub record InStep (k : ℕ) (t u : Turn S) : Type 0 where
    pub added : List Message
    pub beyond : List Message
    pub same_conversation : u.session.conversation_id ≡ t.session.conversation_id
    pub history : u.session.history ≡ t.session.history ++ added
    pub stored :
        L.saved t.session.conversation_id u.world
        ≡ (L.saved t.session.conversation_id t.world ++ map L.view added) ++ beyond
    pub few : length beyond ≤ 1
    pub calls : L.chats u.world ≤ L.chats t.world + k

  -- Nothing was added or stored.
  pub idle :
      (k : ℕ) (t u : Turn S)
      → u.session.conversation_id ≡ t.session.conversation_id
      → u.session.history ≡ t.session.history
      → ((c : Bytes) → L.saved c u.world ≡ L.saved c t.world)
      → L.chats u.world ≤ L.chats t.world + k
      → (i : InStep k t u) × (i.beyond ≡ [])
  idle k t u conv history stored calls = (
    record {
      added = [];
      beyond = [];
      same_conversation = conv;
      history = history ∙ sym (append-nil _);
      stored = stored t.session.conversation_id ∙ sym (append-nil _) ∙ sym (append-nil _);
      few = omega arith;
      calls = calls;
    },
    refl,
  )

  pub InStep-trans :
      {k j : ℕ} {t u v : Turn S} (a : InStep k t u) (b : InStep j u v)
      → a.beyond ≡ []
      → (c : InStep (k + j) t v) × (c.beyond ≡ b.beyond)
  InStep-trans {t = t} {u = u} a b done =
      let conv = t.session.conversation_id in
      let one : L.saved conv u.world ≡ L.saved conv t.world ++ map L.view a.added =
        a.stored
        ∙ ap (λ (x : List Message). (L.saved conv t.world ++ map L.view a.added) ++ x) done
        ∙ append-nil _ in
      let two : L.saved conv t.world ++ map L.view a.added ++ map L.view b.added
          ≡ L.saved conv t.world ++ map L.view (a.added ++ b.added) =
        append_assoc (L.saved conv t.world) (map L.view a.added) (map L.view b.added)
        ∙ ap (λ x. L.saved conv t.world ++ x) (sym (map-append L.view a.added b.added)) in
      (
        record {
          added = a.added ++ b.added;
          beyond = b.beyond;
          same_conversation = b.same_conversation ∙ a.same_conversation;
          history =
              b.history
              ∙ ap (λ h. h ++ b.added) a.history
              ∙ append_assoc t.session.history a.added b.added;
          stored =
              (rw a.same_conversation at b.stored)
              ∙ ap (λ (h : List Message). (h ++ map L.view b.added) ++ b.beyond) one
              ∙ ap (λ (h : List Message). h ++ b.beyond) two;
          few = b.few;
          calls = omega (arith, a.calls, b.calls);
        },
        refl,
      )

  pub InStep-weaken :
      {k : ℕ} {t u : Turn S} (j : ℕ)
      → k ≤ j
      → (a : InStep k t u) → (b : InStep j t u) × (b.beyond ≡ a.beyond)
  InStep-weaken j h a = (
    record {
      added = a.added;
      beyond = a.beyond;
      same_conversation = a.same_conversation;
      history = a.history;
      stored = a.stored;
      few = a.few;
      calls = omega (arith, a.calls);
    },
    refl,
  )

  -- In step, and exactly so where the outcome is one of `P`.
  abbrev pub KeepsIf : {A : Type 0} → (Outcome EngineError A → Type 0) → ℕ → M S A → Type 0
  KeepsIf P k m = (t : Turn S) → (i : InStep k t (m t).1) × (P (m t).0 → i.beyond ≡ [])

  abbrev pub Keeps : {A : Type 0} → ℕ → M S A → Type 0
  Keeps k m = KeepsIf IsOk k m

  pub weaken :
      {A : Type 0} (P : Outcome EngineError A → Type 0) (k j : ℕ) (m : M S A)
      → k ≤ j
      → KeepsIf P k m
      → KeepsIf P j m
  weaken P k j m h keep t =
      let (a, fine) = keep t in let (b, same) = InStep-weaken j h a in (b, λ p. same ∙ fine p)

  pub Keeps-pure : {A : Type 0} (a : A) → Keeps 0 (pure {S = S} a)
  Keeps-pure a t = let (i, e) = idle 0 t t refl refl (λ c. refl) (omega arith) in (i, λ p. e)

  pub Keeps-fail : (A : Type 0) (x : EngineError) → Keeps {A = A} 0 (fail {S = S} x)
  Keeps-fail A x t = let (i, e) = idle 0 t t refl refl (λ c. refl) (omega arith) in (i, λ p. e)

  pub KeepsIf-bind :
      {A B : Type 0} (P : Outcome EngineError B → Type 0) (k j : ℕ) (m : M S A) (f : A → M S B)
      → ((x : EngineError) → P (err x) → ⊥)
      → Keeps k m
      → ((a : A) → KeepsIf P j (f a))
      → KeepsIf P (k + j) (m >>= f)
  KeepsIf-bind P k j m f never keep next t = elim (Outcome-cases (m t).0) [
    | inl (a, e) ↦
        let (i, fine) = keep t in
        let (i', fine') = next a (m t).1 in
        let (c, same) = InStep-trans i i' (fine (rw e tt)) in rw (e, ◌>>=◌) (c, λ p. same ∙ fine' p)
    | inr (x, e) ↦
        let (i, fine) = keep t in
        let (c, same) = InStep-weaken (k + j) (omega arith) i in
        rw (e, ◌>>=◌) (c, λ p. absurd (never x p))
  ]

  pub Keeps-bind :
      {A B : Type 0} (k j : ℕ) (m : M S A) (f : A → M S B)
      → Keeps k m
      → ((a : A) → Keeps j (f a))
      → Keeps (k + j) (m >>= f)
  Keeps-bind k j m f keep next = KeepsIf-bind IsOk k j m f (λ x p. p) keep next

  pub KeepsIf-pure :
      {A B : Type 0} (P : Outcome EngineError A → Type 0) (Q : Outcome EngineError B → Type 0)
      (k : ℕ) (m : M S A) (f : A → B)
      → ((a : A) → Q (ok (f a)) → P (ok a))
      → ((x : EngineError) → Q (err x) → ⊥)
      → KeepsIf P k m
      → KeepsIf Q k (m >>= λ a. pure (f a))
  KeepsIf-pure P Q k m f back never keep t = elim (Outcome-cases (m t).0) [
    | inl (a, e) ↦
        let (i, fine) = keep t in rw (e, ◌>>=◌) (i, λ q. fine (subst P (sym e) (back a q)))
    | inr (x, e) ↦ let (i, fine) = keep t in rw (e, ◌>>=◌) (i, λ q. absurd (never x q))
  ]

  pub Keeps-then :
      {A B : Type 0} (k j : ℕ) (m : M S A) (n : M S B)
      → Keeps k m
      → Keeps j n
      → Keeps (k + j) (m >> n)
  Keeps-then k j m n keep next = Keeps-bind k j m (λ _. n) keep (λ _. next)

  pub Keeps-if :
      {A : Type 0} (k : ℕ) (b : Bool) (m n : M S A)
      → Keeps k m
      → Keeps k n
      → Keeps k (if b then m else n)
  Keeps-if k true m n x y = x
  Keeps-if k false m n x y = y
