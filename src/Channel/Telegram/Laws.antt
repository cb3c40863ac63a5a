-- ===== src/Channel/Telegram/Laws.antt =====
-- Who is answered.
use mathlib.Core.List.{Memᴰ}
use gogoclaw.Base.{
  ◌==◌, ◌≡◌, refl, sym, ◌⊎◌, inl, inr, arith, Bool, true, false, some, List, [], ◌∷◌, All,
  Bool-cases, Option-cases, length,
}
use gogoclaw.Base.Bytes.{Bytes, bytes, bytes_eq, bytes_eq_iff}
use gogoclaw.Channel.Telegram.{
  User, Chat, Update, TelegramChannel, Answers, Action, logged, replied, saved, loaded, notified,
  asked, sent, Trace, Kind, text_message, document_message, photo_message, decimal, is_group_chat,
  is_listed, is_user_allowed, sender_name, sender_id, in_group, check_access, on_access, handle,
}

-- What goes beyond logging an update and replying to it.
abbrev pub reaches : Action → Bool
reaches (logged a) = false
reaches (replied t) = false
reaches (saved n) = true
reaches (loaded c) = true
reaches (notified c t) = true
reaches (asked p) = true
reaches (sent c) = true

is_listed-Mem : (us : List Bytes) (name : Bytes) → is_listed us name ≡ true → Memᴰ name us
unfolding is_listed
is_listed-Mem [] name h = cc
is_listed-Mem (u ∷ us) name h = elim (Bool-cases (bytes_eq u name)) [
  | inl e ↦ Memᴰ.head (sym ((bytes_eq_iff u name).0 e))
  | inr e ↦ Memᴰ.tail (is_listed-Mem us name (ground (arith, h, e)))
]

-- The user who sent the update is on the list by name or number, and the chat is private.
pub record IsInvited (tc : TelegramChannel) (u : Update) : Type 0 where
  pub user : User
  pub sent_by : u.sender ≡ some user
  pub listed : Memᴰ user.username tc.allowed_users ⊎ Memᴰ (decimal user.id) tc.allowed_users
  pub private_chat : (c : Chat) → u.chat ≡ some c → c.chat_type ≡ bytes "private"

is_user_allowed-Mem :
    (tc : TelegramChannel) (name id : Bytes)
    → is_user_allowed tc name id ≡ true
    → Memᴰ name tc.allowed_users ⊎ Memᴰ id tc.allowed_users
unfolding is_user_allowed
is_user_allowed-Mem tc name id h = elim (Bool-cases (length tc.allowed_users == 0)) [
  | inl e ↦ absurd (ground (arith, h, e))
  | inr e ↦ elim (Bool-cases (is_listed tc.allowed_users name)) [
    | inl f ↦ inl (is_listed-Mem tc.allowed_users name f)
    | inr f ↦ inr (is_listed-Mem tc.allowed_users id (ground (arith, h, e, f)))
  ]
]

not_group :
    (u : Update) (c : Chat) → in_group u ≡ false → u.chat ≡ some c → c.chat_type ≡ bytes "private"
unfolding is_group_chat
not_group u c h e = (bytes_eq_iff c.chat_type (bytes "private")).0 (ground (arith, h, e))

check_access-IsInvited :
    (tc : TelegramChannel) (u : Update)
    → (Memᴰ [] tc.allowed_users → ⊥)
    → (check_access tc u).0 ≡ true
    → IsInvited tc u
unfolding check_access
check_access-IsInvited tc u no_empty h = elim (Bool-cases (in_group u)) [
  | inl e ↦ absurd (ground (arith, h, e))
  | inr e ↦ elim (Bool-cases (is_user_allowed tc (sender_name u) (sender_id u))) [
    | inr f ↦ absurd (ground (arith, h, e, f))
    | inl f ↦
        let listed = is_user_allowed-Mem tc (sender_name u) (sender_id u) f in
        elim (Option-cases u.sender) [
          | inl n ↦ absurd (elim (rw n at listed) [ inl i ↦ no_empty i | inr i ↦ no_empty i ])
          | inr (s, n) ↦ record {
            user = s;
            sent_by = n;
            listed = (rw n at listed);
            private_chat = λ c g. not_group u c e g;
          }
        ]
  ]
]

-- A refusal is logged and replied to.
check_access_refused :
    (tc : TelegramChannel) (u : Update)
    → (check_access tc u).0 ≡ false
    → All (λ a. reaches a ≡ false) (check_access tc u).1
unfolding check_access
check_access_refused tc u h = elim (Bool-cases (in_group u)) [
  | inl e ↦ rw (e, check_access) (refl, (refl, tt))
  | inr e ↦ elim (Bool-cases (is_user_allowed tc (sender_name u) (sender_id u))) [
    | inr f ↦ rw (e, check_access, f) (refl, (refl, tt))
    | inl f ↦ absurd (ground (arith, h, e, f))
  ]
]

All-Mem : (P : Action → Type 0) (xs : List Action) (x : Action) → All P xs → Memᴰ x xs → P x
All-Mem P [] x a i = elim i [ ]
All-Mem P (y ∷ ys) x a (Memᴰ.head e) = rw e a.0
All-Mem P (y ∷ ys) x a (Memᴰ.tail i) = All-Mem P ys x a.1 i

on_access-IsInvited :
    (tc : TelegramChannel) (u : Update) (rest : Trace) (x : Action)
    → (Memᴰ [] tc.allowed_users → ⊥)
    → Memᴰ x (on_access tc u rest).0
    → reaches x ≡ true
    → IsInvited tc u
unfolding on_access
on_access-IsInvited tc u rest x no_empty i h = elim (Bool-cases (check_access tc u).0) [
  | inl e ↦ check_access-IsInvited tc u no_empty e
  | inr e ↦
      let refused =
        All-Mem (λ a. reaches a ≡ false) (check_access tc u).1 x (check_access_refused tc u e)
          (rw (e, on_access) at i) in
      absurd (ground (arith, h, refused))
]

-- With no empty name on the allow list: if a handler saves a file, loads a session, notifies the
-- registered handler, asks the engine or sends a chunk of a reply, then the update's sender is a
-- user who is on the list by name or by number, and the chat, if there is one, is private. This
-- holds for text, documents and photos, whatever the bot, the files and the engine answer.
pub handle-IsInvited :
    (tc : TelegramChannel) (a : Answers) (kind : Kind) (u : Update) (x : Action)
    → (Memᴰ [] tc.allowed_users → ⊥)
    → Memᴰ x (handle tc a kind u).0
    → reaches x ≡ true
    → IsInvited tc u
unfolding handle
handle-IsInvited tc a text_message u x no_empty i h = on_access-IsInvited tc u _ x no_empty i h
handle-IsInvited tc a document_message u x no_empty i h = on_access-IsInvited tc u _ x no_empty i h
handle-IsInvited tc a photo_message u x no_empty i h = on_access-IsInvited tc u _ x no_empty i h
