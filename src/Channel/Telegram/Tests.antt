-- ===== src/Channel/Telegram/Tests.antt =====
-- A document from a user on the list.
use mathlib.Core.List.{Memᴰ}
use mathlib.Core.List.Memᴰ
use gogoclaw.Base.{◌≡◌, refl, inl, inr, true, false, none, some, [], ◌∷◌}
use gogoclaw.Base.Bytes.{Bytes, bytes, bytes_eq}
use gogoclaw.Base.Outcome.{ok}
use gogoclaw.Channel.Split.{split_message}
use gogoclaw.Channel.Telegram.{
  Update, TelegramChannel, Answers, logged, saved, loaded, asked, sent, returned, digits,
  telegram_conversation_id, is_group_chat, is_listed, is_user_allowed, check_access, send_chunks,
  answer, download_file, answer_file, document_message, on_access, handle,
}
use gogoclaw.Channel.Telegram.Laws.{IsInvited, handle-IsInvited}

abbrev channel : TelegramChannel
channel = record { allowed_users = bytes "alice" ∷ []; has_inbox = true; has_handler = false }

abbrev update : Update
update = record {
  sender = some (record { username = bytes "alice"; id = 42 });
  chat = some (record { id = 42; chat_type = bytes "private" });
  text = [];
  caption = [];
  document = some (bytes "report.txt");
  photo = false;
}

abbrev answers : Answers
answers = record {
  session_error = none;
  engine_reply = ok (bytes "done");
  chunk_error = λ i. none;
  reply_error = none;
  file_error = none;
  create_error = none;
  copy_error = none;
  base_name = λ name. name;
  nanos = 7;
  file_nanos = 12;
}

-- The prompt names the file as it was sent, and the file is saved under another name.
abbrev prompt : Bytes
prompt =
    bytes
      "[Channel: Telegram] [File uploaded: inbox/report.txt] You can read it with file_read using path \"inbox/report.txt\"."

handle_sample : handle channel answers document_message update ≡ (
  logged (bytes "allowed")
      ∷ saved (bytes "12_report.txt")
      ∷ loaded (bytes "telegram-42")
      ∷ asked prompt
      ∷ sent (bytes "done")
      ∷ [],
  returned none,
)
unfolding handle on_access check_access is_group_chat is_user_allowed is_listed bytes_eq digits
    telegram_conversation_id answer_file download_file answer send_chunks split_message
handle_sample = refl

not_listed : Memᴰ [] channel.allowed_users → ⊥
not_listed i = elim (Memᴰ.cases_cons i) [ inl e ↦ cc | inr j ↦ elim j [ ] ]

in_trace : Memᴰ (asked prompt) (handle channel answers document_message update).0
in_trace = rw handle_sample (Memᴰ.tail (Memᴰ.tail (Memᴰ.tail (Memᴰ.head refl))))

handle-IsInvited_example : IsInvited channel update
handle-IsInvited_example =
    handle-IsInvited channel answers document_message update (asked prompt) not_listed in_trace refl
