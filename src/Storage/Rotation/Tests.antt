-- ===== src/Storage/Rotation/Tests.antt =====
-- A rotation of an encrypted message, a plaintext one and an audit log, with a cipher that puts the
-- key in front of the text.
use gogoclaw.Base.{
  sym, ◌∙◌, Bool-cases, inl, inr, arith, ℕ, ◌==◌, if◌then◌else◌, Option, none, ℕ, ◌/◌, ◌<◌, ◌≡◌,
  ◌≢◌, ◌⊎◌, refl, inl, inr, Option-cases, arith, true, false, Option, none, some, List, [], ◌∷◌,
  ◌++◌, length, drop, drop-length-append, if◌then◌else◌,
}
use gogoclaw.Base.Bytes.{
  Bytes, bytes, bytes_eq, bytes_eq_iff, has_prefix, append-has_prefix, trim_space, trim_left,
  trim_right,
}
use gogoclaw.Base.Outcome.{ok}
use gogoclaw.Storage.Encryption.{Crypto, IsSound, decrypt, encrypt, build_message_aad, key_equals}
use gogoclaw.Storage.Messages.{StoredMessage, open_text, seal_text, seal_calls}
use gogoclaw.Storage.Rotation.{
  rotate_messages, both_passes, rotate_page, encrypt_page, commit_rotated, commit_encrypted,
  rotate_one, rotate_row, try_both_keys, try_calls, seal_opened, re_encrypt, encrypt_row,
  encrypt_one,
}
use gogoclaw.Storage.Rotation.Statements.{
  Datetime, Run, Pass, RotateResult, after, before, cursor_of, bytes_lt, insert, order_by,
  select_rows, update_row, each_row, same_name, is_consistent,
}
use gogoclaw.Storage.Rotation.Pages.{out_of_fuel, run_pages}
use gogoclaw.Storage.Rotation.Sealing.{IsDrawn, IsSeparate}
use gogoclaw.Storage.Rotation.Kept.{IsKept}
use gogoclaw.Storage.Rotation.Tables.{Zip}
use gogoclaw.Storage.Rotation.PassedOver.{IsRekeyed}
use gogoclaw.Storage.Rotation.Order.{IsAgreeing}
use gogoclaw.Storage.Rotation.Ends.{rotate_messages-ends}
use gogoclaw.Storage.Rotation.Audit.{
  AuditRun, Disk, Events, no_result, encrypted_prefix, rotate_line, rotate_lines, rewrite_log,
  rotate_audit_log, rotate_stores, rotate_keys,
}
use gogoclaw.Storage.Rotation.Audit.Lines.{SameLog}
use gogoclaw.Storage.Rotation.Audit.Laws.{rotate_audit_log-again}
use gogoclaw.Storage.Rotation.Audit.Keys.{rotate_keys-Kept, rotate_keys-IsRekeyed}

abbrev marked : Bytes → Option Bytes
marked [] = none
marked (b ∷ bs) = some bs

abbrev open_keyed : Bytes → Bytes → Option Bytes
open_keyed key ct = if has_prefix ct key then some (drop (length key) ct) else none

abbrev keyed : Crypto
keyed = record {
  accepts = λ key. true;
  seal = λ key drawn text aad. key ++ text;
  unseal = λ key drawn ct aad. open_keyed key ct;
  encode = λ xs. 1 ∷ xs;
  decode = marked;
}

open_keyed-append : (key text : Bytes) → open_keyed key (key ++ text) ≡ some text
open_keyed-append key text = rw (append-has_prefix key text) (rw (drop-length-append key text) refl)

keyed-IsSound : IsSound keyed
keyed-IsSound = record {
  unseal-seal = λ key drawn text aad. open_keyed-append key text;
  decode-encode = λ xs. refl;
  encode_nonempty = λ x xs e. cc;
}

abbrev old_bytes : Bytes
old_bytes = 1 ∷ []

abbrev new_bytes : Bytes
new_bytes = 2 ∷ []

not_both :
    (ct p q : Bytes) → open_keyed old_bytes ct ≡ some p → open_keyed new_bytes ct ≡ some q → ⊥
unfolding has_prefix
not_both [] p q a b = ground (arith, a)
not_both (x ∷ xs) p q a b = ground (arith, a, b)

opened :
    (key aad ct p : Bytes)
    → open_text keyed key aad (1 ∷ ct) ≡ ok p
    → (x : Bytes) × (open_keyed key (drop 12 ct) ≡ some x)
unfolding open_text decrypt
opened key aad ct p h = elim (Option-cases (open_keyed key (drop 12 ct))) [
  | inr f ↦ f
  | inl f ↦ absurd (ground (arith, h, f))
]

keyed-IsSeparate : IsSeparate keyed old_bytes new_bytes
unfolding open_text decrypt
keyed-IsSeparate aad [] p q a b = ground (arith, a)
keyed-IsSeparate aad (x ∷ xs) p q a b =
    let (y, f) = opened old_bytes aad xs p a in
    let (z, g) = opened new_bytes aad xs q b in not_both (drop 12 xs) y z f g

abbrev drawn : Bytes
drawn = bytes "abcdefghijkl"

-- A run in which nothing fails.
abbrev run : Run
run = record {
  live = λ k. true;
  queried = λ k. true;
  begun = λ k. true;
  live_row = λ k id. true;
  draw_content = λ k id. some drawn;
  draw_calls = λ k id. some drawn;
  updated = λ k id. true;
  committed = λ k. true;
}

abbrev audit_run : AuditRun
audit_run = record {
  live_before = true;
  created = true;
  live_line = λ i. true;
  draw = λ i. some drawn;
  written = λ i. true;
  saved = true;
  live_after = true;
  renamed = true;
}

abbrev events : Events
events = record {
  database_found = true;
  database_opened = true;
  first = run;
  second = run;
  audit_run = audit_run;
}

abbrev message : Bytes → Bytes → ℕ → StoredMessage
message id content time = record {
  id = id;
  conversation_id = bytes "c";
  role = bytes "user";
  content = content;
  tool_calls = [];
  tool_call_id = [];
  token_count = 0;
  created_at = time;
}

abbrev sealed_hi : Bytes
sealed_hi = 1 ∷ drawn ++ (1 ∷ bytes "hi")

abbrev disk : Disk
disk = record {
  table =
      record { message = message (bytes "a") sealed_hi 3; encrypted = true }
      ∷ record { message = message (bytes "b") (bytes "there") 2; encrypted = false }
      ∷ [];
  audit = some ((encrypted_prefix ++ sealed_hi) ∷ bytes "{}" ∷ []);
}

-- A `datetime` of ten ticks, which reads nothing of the stored time 7.
abbrev tens : Datetime
tens = record { stored = λ t. if t == 7 then none else some (t / 10); scanned = λ t. some (t / 10) }

some_eq : (x y : ℕ) → some x ≡ some y → x ≡ y
some_eq x y h = ground (arith, h)

tens_agree : IsAgreeing tens
tens_agree t x y a b = elim (Bool-cases (t == 7)) [
  | inl e ↦ absurd (ground (arith, a, e))
  | inr e ↦ some_eq x y (sym a ∙ rw e b)
]

abbrev disk_after : Disk
disk_after = (rotate_keys keyed tens events (some old_bytes) (some new_bytes) disk).1

draws : (k : ℕ) (id : Bytes) → IsDrawn (some drawn) × IsDrawn (some drawn)
draws k id = (omega arith, omega arith)

two_ids : bytes "b" ≢ bytes "a"
two_ids e = ground (arith, (bytes_eq_iff (bytes "b") (bytes "a")).1 e)

abbrev counts : RotateResult
counts = record {
  messages_rotated = 1;
  messages_skipped = 0;
  plaintext_encrypted = 1;
  audit_lines_rotated = 1;
  audit_lines_passed_thru = 1;
}

rotates : (rotate_keys keyed tens events (some old_bytes) (some new_bytes) disk).0 ≡ ok counts
unfolding rotate_keys key_equals bytes_eq rotate_stores rotate_messages both_passes run_pages
    rotate_page encrypt_page commit_rotated commit_encrypted rotate_one rotate_row try_both_keys
    try_calls is_consistent same_name seal_opened re_encrypt encrypt_row encrypt_one after bytes_lt
    before insert order_by select_rows update_row each_row seal_text seal_calls encrypt decrypt
    open_text build_message_aad rotate_audit_log rewrite_log rotate_lines rotate_line trim_space
    trim_left trim_right has_prefix
rotates = refl

rotate_keys-IsRekeyed_example :
    Zip (IsRekeyed keyed old_bytes new_bytes tens disk.table) disk.table disk_after.table
    × SameLog keyed old_bytes new_bytes disk.audit disk_after.audit
rotate_keys-IsRekeyed_example =
    rotate_keys-IsRekeyed keyed keyed-IsSound old_bytes new_bytes keyed-IsSeparate tens events draws
      draws (λ i. omega arith) disk ((two_ids, tt), (tt, tt)) counts rotates

rotate_keys-Kept_example :
    Zip (IsKept keyed old_bytes new_bytes) disk.table disk_after.table
    × ((disk_after.audit ≡ disk.audit)
        ⊎ SameLog keyed old_bytes new_bytes disk.audit disk_after.audit)
rotate_keys-Kept_example =
    rotate_keys-Kept keyed keyed-IsSound old_bytes new_bytes keyed-IsSeparate tens events draws
      draws (λ i. omega arith) disk ((two_ids, tt), (tt, tt))

abbrev start : Pass
start = record { table = disk.table; cursor = none; result = no_result }

rotate_messages-ends_example :
    (rotate_messages keyed old_bytes new_bytes tens run run start).0 ≢ out_of_fuel
rotate_messages-ends_example =
    rotate_messages-ends keyed old_bytes new_bytes tens tens_agree run run start

abbrev log : List Bytes
log = (encrypted_prefix ++ sealed_hi) ∷ []

log_rotated :
    (rotate_audit_log keyed old_bytes new_bytes audit_run (some log) no_result).error ≡ none
unfolding seal_text encrypt decrypt open_text bytes_eq rotate_audit_log rewrite_log rotate_lines
    rotate_line trim_space trim_left trim_right has_prefix
log_rotated = refl

log_counted :
    0
    < (rotate_audit_log keyed old_bytes new_bytes audit_run
        (some log)
        no_result).result.audit_lines_rotated
unfolding seal_text encrypt decrypt open_text bytes_eq rotate_audit_log rewrite_log rotate_lines
    rotate_line trim_space trim_left trim_right has_prefix
log_counted = omega arith

rotate_audit_log-again_example :
    (rotate_audit_log keyed old_bytes new_bytes audit_run
      (rotate_audit_log keyed old_bytes new_bytes audit_run (some log) no_result).audit
      no_result).error
    ≢ none
rotate_audit_log-again_example =
    rotate_audit_log-again keyed keyed-IsSound old_bytes new_bytes keyed-IsSeparate audit_run
      audit_run (λ i. omega arith) log no_result no_result log_rotated log_counted

-- By that `datetime` a message is read later than another and is not after it.
abbrev earlier : StoredMessage
earlier = message (bytes "b") [] 14

abbrev later : StoredMessage
later = message (bytes "a") [] 15

passed_over : (before earlier later ≡ true) × (after tens (some (cursor_of earlier)) later ≡ false)
unfolding before after bytes_lt
passed_over = (refl, refl)
