-- ===== src/Channel/Tests.antt =====
-- Runs of the Telegram channel's functions, and the theorems at concrete inputs.
use gogoclaw.Base.{◌≡◌, refl, some, arith, List, [], ◌∷◌}
use gogoclaw.Base.Bytes.{Bytes, bytes}
use gogoclaw.Channel.Split.{split_message}
use gogoclaw.Channel.Split.Laws.{IsSplit, split_message_lem}

abbrev reply : Bytes
reply = bytes "one two. three   four"

split_sample : split_message reply 10 ≡ some (bytes "one two." ∷ bytes "three" ∷ bytes "four" ∷ [])
unfolding split_message
split_sample = refl

split_message_example :
    (chunks : List Bytes) × (split_message reply 10 ≡ some chunks) × IsSplit reply 10 chunks
split_message_example = split_message_lem reply 10 (omega arith)
