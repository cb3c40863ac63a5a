-- ===== src/Channel/Telegram.antt =====
-- internal/channel/telegram.go: the three handlers of an update, as the list of what they do in
-- order. What the bot, the session manager, the engine and the files answer is a parameter; numbers
-- of users and of the chats that are answered are not negative.
pub mod Laws
mod Tests
use gogoclaw.Base.{
  ℕ, zero, suc, ◌+◌, ◌/◌, ◌%◌, ltb, ◌==◌, Bool, true, false, not, ◌||◌, if◌then◌else◌, Option, none,
  some, List, [], ◌∷◌, ◌++◌, length,
}
use gogoclaw.Base.Bytes.{Bytes, bytes, bytes_eq}
use gogoclaw.Base.Outcome.{Outcome, ok, err}
use gogoclaw.Channel.Split.{split_message, telegram_max_message}

pub record User : Type 0 where
  pub username : Bytes
  pub id : ℕ

pub record Chat : Type 0 where
  pub id : ℕ
  pub chat_type : Bytes

pub record Update : Type 0 where
  pub sender : Option User
  pub chat : Option Chat
  pub text : Bytes
  pub caption : Bytes
  pub document : Option Bytes
  pub photo : Bool

-- The channel: its allow list, whether there is an inbox and whether a handler is registered.
pub record TelegramChannel : Type 0 where
  pub allowed_users : List Bytes
  pub has_inbox : Bool
  pub has_handler : Bool

-- What the calls answer: an error's text, a reply, the error of the chunk with a number, the result
-- of a download, and the clock when a photo is named and when a file is saved.
pub record Answers : Type 0 where
  pub session_error : Option Bytes
  pub engine_reply : Outcome Bytes Bytes
  pub chunk_error : ℕ → Option Bytes
  pub reply_error : Option Bytes
  pub file_error : Option Bytes
  pub create_error : Option Bytes
  pub copy_error : Option Bytes
  pub base_name : Bytes → Bytes
  pub nanos : ℕ
  pub file_nanos : ℕ

-- What a handler does; `saved` is a file that was created in the inbox.
pub data Action : Type 0 where
  logged : Bytes → Action
  replied : Bytes → Action
  saved : Bytes → Action
  loaded : Bytes → Action
  notified : Bytes → Bytes → Action
  asked : Bytes → Action
  sent : Bytes → Action

-- The handler's error, if it returned; it panics where it reads the chat of an update without one.
pub data Ending : Type 0 where
  returned : Option Bytes → Ending
  panicked : Ending

abbrev pub Trace : Type 0
Trace = List Action × Ending

-- `strconv.FormatInt` of a number that is not negative; a number has fewer digits than its size.
unfoldable pub digits : ℕ → ℕ → Bytes
digits zero n = []
digits (suc fuel) n =
    let rest = digits fuel (n / 10) in
    if ltb n 10 then (48 + n) ∷ [] else rest ++ ((48 + n % 10) ∷ [])

abbrev pub decimal : ℕ → Bytes
decimal n = digits (suc n) n

unfoldable pub telegram_conversation_id : ℕ → Bytes
unfolding digits
telegram_conversation_id chat_id = bytes "telegram-" ++ decimal chat_id

unfoldable pub is_group_chat : Bytes → Bool
unfolding bytes_eq
is_group_chat chat_type = not (bytes_eq chat_type (bytes "private"))

unfoldable pub is_listed : List Bytes → Bytes → Bool
unfolding bytes_eq
is_listed [] name = false
is_listed (u ∷ us) name = bytes_eq u name || is_listed us name

unfoldable pub is_user_allowed : TelegramChannel → Bytes → Bytes → Bool
unfolding is_listed
is_user_allowed tc username user_id =
    if length tc.allowed_users == 0
    then false
    else is_listed tc.allowed_users username || is_listed tc.allowed_users user_id

abbrev pub sender_name : Update → Bytes
sender_name u = elim u.sender [ none ↦ [] | some s ↦ s.username ]

abbrev pub sender_id : Update → Bytes
sender_id u = elim u.sender [ none ↦ [] | some s ↦ decimal s.id ]

abbrev pub in_group : Update → Bool
in_group u = elim u.chat [ none ↦ false | some c ↦ is_group_chat c.chat_type ]

-- `checkAccess`: the answer, and what is logged and replied.
unfoldable pub check_access : TelegramChannel → Update → Bool × List Action
unfolding digits is_group_chat is_user_allowed
check_access tc u =
    if in_group u
    then (
      false,
      logged (bytes "rejected_group")
          ∷ replied (bytes "I only respond in private/DM conversations.")
          ∷ [],
    )
    else if is_user_allowed tc (sender_name u) (sender_id u)
    then (true, logged (bytes "allowed") ∷ [])
    else (
      false,
      logged (bytes "rejected_user")
          ∷ replied (bytes "You are not authorized to use this bot.")
          ∷ [],
    )

-- The chunks from number `i` on, up to the first that is not sent.
unfoldable pub send_chunks : Answers → ℕ → List Bytes → Trace
send_chunks a i [] = ([], returned none)
send_chunks a i (c ∷ cs) =
    let rest = send_chunks a (suc i) cs in
    elim (a.chunk_error i) [
      | some e ↦ (sent c ∷ [], returned (some (bytes "channel: telegram: send chunk: " ++ e)))
      | none ↦ (sent c ∷ rest.0, rest.1)
    ]

-- `SplitMessage` returns for this limit.
abbrev pub chunks_of : Bytes → List Bytes
chunks_of text = elim (split_message text telegram_max_message) [ some cs ↦ cs | none ↦ [] ]

abbrev pub then_do : List Action → Trace → Trace
then_do actions (more, end) = (actions ++ more, end)

abbrev pub notify_handler : TelegramChannel → Bytes → Bytes → List Action
notify_handler tc conversation text = if tc.has_handler then notified conversation text ∷ [] else []

-- From the session on, the three handlers are the same.
unfoldable pub answer : TelegramChannel → Answers → Update → Bytes → Trace
unfolding telegram_conversation_id send_chunks split_message
answer tc a u text = elim u.chat [
  | none ↦ ([], panicked)
  | some c ↦
      let conversation = telegram_conversation_id c.id in
      then_do (loaded conversation ∷ []) (elim a.session_error [
        | some e ↦ (replied (bytes "Error loading session: " ++ e) ∷ [], returned a.reply_error)
        | none ↦
            then_do
              (notify_handler tc conversation text
                ++ (asked (bytes "[Channel: Telegram] " ++ text) ∷ []))
              (elim a.engine_reply [
                | err e ↦ (replied (bytes "Error: " ++ e) ∷ [], returned a.reply_error)
                | ok reply ↦ send_chunks a 0 (chunks_of reply)
              ])
      ])
]

abbrev pub stored_base : Bytes → Bytes
stored_base base =
    let is_plain = bytes_eq base (bytes ".") || bytes_eq base (bytes "/") in
    if is_plain then bytes "upload" else base

-- `downloadFile`: what is written, and an error.
unfoldable pub download_file : TelegramChannel → Answers → Bytes → List Action × Option Bytes
unfolding digits bytes_eq
download_file tc a filename = if not tc.has_inbox then ([], none) else (elim a.file_error [
  | some e ↦ ([], some (bytes "get file: " ++ e))
  | none ↦ elim a.create_error [
    | some e ↦ ([], some (bytes "create file: " ++ e))
    | none ↦ (
      saved (decimal a.file_nanos ++ bytes "_" ++ stored_base (a.base_name filename)) ∷ [],
      elim a.copy_error [ some e ↦ some (bytes "write file: " ++ e) | none ↦ none ],
    )
  ]
])

abbrev pub file_text : Bytes → Bytes → Bytes
file_text filename caption =
    let context =
      bytes "[File uploaded: inbox/"
      ++ filename
      ++ bytes "] You can read it with file_read using path \"inbox/"
      ++ filename
      ++ bytes "\"." in
    if length caption == 0 then context else context ++ bytes " " ++ caption

-- The common part of `onDocument` and `onPhoto`.
unfoldable pub answer_file : TelegramChannel → Answers → Update → Bytes → Bytes → Trace
unfolding download_file answer
answer_file tc a u filename failure =
    let (done, failed) : List Action × Option Bytes = download_file tc a filename in
    elim failed [
      | some e ↦ (done ++ (replied (failure ++ e) ∷ []), returned a.reply_error)
      | none ↦ then_do done (answer tc a u (file_text filename u.caption))
    ]

pub data Kind : Type 0 where
  text_message document_message photo_message : Kind

unfoldable pub on_access : TelegramChannel → Update → Trace → Trace
unfolding check_access
on_access tc u rest =
    if (check_access tc u).0
    then then_do (check_access tc u).1 rest
    else ((check_access tc u).1, returned none)

-- `onText`, `onDocument` and `onPhoto`
unfoldable pub handle : TelegramChannel → Answers → Kind → Update → Trace
unfolding on_access answer answer_file digits
handle tc a text_message u = on_access tc u (answer tc a u u.text)
handle tc a document_message u = on_access tc u (elim u.document [
  | none ↦ ([], returned none)
  | some name ↦ answer_file tc a u name (bytes "Failed to save file: ")
])
handle tc a photo_message u = on_access tc u (
    if u.photo
    then answer_file tc a u (bytes "photo_" ++ decimal a.nanos ++ bytes ".jpg")
        (bytes "Failed to save photo: ")
    else ([], returned none))
