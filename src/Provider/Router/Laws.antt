-- ===== src/Provider/Router/Laws.antt =====
-- Failover: when the router answers, and how often and how long it tries.
use gogoclaw.Base.{
  ℕ, zero, suc, ◌+◌, ◌-◌, ◌*◌, ◌^◌, ◌≤◌, ◌≡◌, ◌⊎◌, refl, ap, ◌∙◌, inl, inr, arith, Option, none,
  some, List, [], ◌∷◌, Option-cases, All,
}
use gogoclaw.Base.Bytes.{Bytes}
use gogoclaw.Base.Outcome.{ok, Outcome-cases}
use gogoclaw.Provider.{Message, ChatResponse}
use gogoclaw.Provider.Router.{
  Provider, Entry, back_off, retry_loop, try_with_retries, fail_over, chat,
}

-- A provider that always answers.
-- A provider that always answers.
abbrev pub IsUp : {World : Type 0} → Provider World → Type 0
IsUp {World} p =
    (timeout : ℕ) (msgs : List Message) (w : World)
    → (resp : ChatResponse) × ((p.chat timeout msgs w).0 ≡ ok resp)

abbrev pub SomeUp : {World : Type 0} → List (Entry World) → Type 0
SomeUp [] = ⊥
SomeUp (e ∷ es) = IsUp e.provider ⊎ SomeUp es

module _ {World : Type 0} (wait : ℕ → World → Option Bytes × World) (msgs : List Message) where
  try_up :
      (e : Entry World) (w : World) {resp : ChatResponse}
      → (e.provider.chat e.timeout msgs w).0 ≡ ok resp
      → (try_with_retries wait e msgs w).0 ≡ ok resp
  unfolding try_with_retries retry_loop back_off
  try_up e w h = rw (h, retry_loop) refl

  fail_over_up :
      (es : List (Entry World)) (last : Option Bytes) (w : World)
      → SomeUp es
      → (resp : ChatResponse) × ((fail_over wait es msgs last w).0 ≡ ok resp)
  unfolding fail_over
  fail_over_up [] last w up = absurd up
  fail_over_up (e ∷ es) last w (inl up) =
      let (resp, h) = up e.timeout msgs w in (resp, rw (try_up e w h, fail_over) refl)
  fail_over_up (e ∷ es) last w (inr up) = elim (Outcome-cases (try_with_retries wait e msgs w).0) [
    | inl (resp, h) ↦ (resp, rw (h, fail_over) refl)
    | inr (x, h) ↦ rw (h, fail_over) (fail_over_up es x (try_with_retries wait e msgs w).1 up)
  ]

  -- The router answers whenever one of its providers always does, wherever that provider stands
  -- in the order and whatever the others do, also with the context done in a pause.
  pub chat_up :
      (es : List (Entry World)) (w : World)
      → SomeUp es
      → (resp : ChatResponse) × ((chat wait es msgs w).0 ≡ ok resp)
  unfolding chat
  chat_up es w up = fail_over_up es none w up

-- What the bounds rely on: `chats` counts the calls of the providers and `waited` the milliseconds
-- of the pauses.
pub record Meter {World : Type 0} (wait : ℕ → World → Option Bytes × World) : Type 0 where
  pub chats : World → ℕ
  pub waited : World → ℕ
  pub chats-wait : (d : ℕ) (w : World) → chats (wait d w).1 ≡ chats w
  pub waited-wait : (d : ℕ) (w : World) → waited (wait d w).1 ≤ waited w + d

module _ {World : Type 0} {wait : ℕ → World → Option Bytes × World} (M : Meter wait)
    (msgs : List Message) where
  abbrev pub IsMetered : Entry World → Type 0
  IsMetered e =
      (w : World)
      → (M.chats (e.provider.chat e.timeout msgs w).1 ≡ suc (M.chats w))
        × (M.waited (e.provider.chat e.timeout msgs w).1 ≡ M.waited w)

  -- The pauses before `left` attempts of which the first has the number `attempt`.
  pauses : ℕ → ℕ → ℕ
  pauses zero attempt = 0
  pauses (suc left) zero = pauses left 1
  pauses (suc left) (suc n) = 2 ^ n * 500 + pauses left (suc (suc n))

  pauses-pow : (left n : ℕ) → pauses left (suc n) + 2 ^ n * 500 ≡ 2 ^ (n + left) * 500
  unfolding pauses
  pauses-pow zero n = let e : n ≡ n + 0 = omega arith in omega (arith, ap (λ k. 2 ^ k * 500) e)
  pauses-pow (suc left) n =
      omega (arith, pauses-pow left (suc n), double n, ap (λ k. 2 ^ k * 500) (shift n left))
    where
      double : (n : ℕ) → 2 ^ suc n ≡ 2 * 2 ^ n
      double n = omega arith

      shift : (n left : ℕ) → n + suc left ≡ suc n + left
      shift n left = omega arith

  first_pauses : (retries : ℕ) → pauses (suc retries) 0 + 500 ≡ 2 ^ retries * 500
  unfolding pauses
  first_pauses retries =
      let e : 0 + retries ≡ retries = omega arith in pauses-pow retries 0 ∙ ap (λ k. 2 ^ k * 500) e

  abbrev Within : ℕ → ℕ → World → World → Type 0
  Within k d w w' = (M.chats w' ≤ M.chats w + k) × (M.waited w' ≤ M.waited w + d)

  retry_loop-Within :
      (e : Entry World) (left attempt : ℕ) (last : Option Bytes) (w : World)
      → IsMetered e
      → Within left (pauses left attempt) w (retry_loop wait e msgs left attempt last w).1
  unfolding retry_loop back_off pauses
  retry_loop-Within e zero attempt last w m = (omega arith, omega arith)
  retry_loop-Within e (suc left) zero last w m =
      elim (Outcome-cases (e.provider.chat e.timeout msgs w).0) [
        | inl (resp, h) ↦ rw (h, retry_loop) (omega (arith, (m w).0), omega (arith, (m w).1))
        | inr (x, h) ↦
            let w' = (e.provider.chat e.timeout msgs w).1 in
            let (c, p) = retry_loop-Within e left 1 (some x) w' m in
            rw (h, retry_loop) (omega (arith, (m w).0, c), omega (arith, (m w).1, p))
      ]
  retry_loop-Within e (suc left) (suc n) last w m = elim (Option-cases (wait (2 ^ n * 500) w).0) [
    | inr (text, stopped) ↦
        rw (stopped, retry_loop)
          (
            omega (arith, M.chats-wait (2 ^ n * 500) w),
            omega (arith, M.waited-wait (2 ^ n * 500) w),
          )
    | inl rested ↦
        let v = (wait (2 ^ n * 500) w).1 in
        let c' = M.chats-wait (2 ^ n * 500) w in
        let p' = M.waited-wait (2 ^ n * 500) w in
        elim (Outcome-cases (e.provider.chat e.timeout msgs v).0) [
          | inl (resp, h) ↦
              rw (rested, retry_loop, h, retry_loop)
                (omega (arith, c', (m v).0), omega (arith, p', (m v).1))
          | inr (x, h) ↦
              let (c, p) =
                retry_loop-Within e left (suc (suc n)) (some x) (e.provider.chat e.timeout msgs v).1
                  m in
              rw (rested, retry_loop, h, retry_loop)
                (omega (arith, c', (m v).0, c), omega (arith, p', (m v).1, p))
        ]
  ]

  -- What the bounds allow an entry: one call more than its retries, and pauses that double from
  -- half a second, which come to less than half a second times two to the number of retries.
  abbrev pub all_calls : List (Entry World) → ℕ
  all_calls [] = 0
  all_calls (e ∷ es) = suc e.retries + all_calls es

  abbrev pub all_pauses : List (Entry World) → ℕ
  all_pauses [] = 0
  all_pauses (e ∷ es) = (2 ^ e.retries - 1) * 500 + all_pauses es

  try-Within :
      (e : Entry World) (w : World)
      → IsMetered e
      → Within (suc e.retries) ((2 ^ e.retries - 1) * 500) w (try_with_retries wait e msgs w).1
  unfolding try_with_retries pauses
  try-Within e w m =
      let (c, p) = retry_loop-Within e (suc e.retries) 0 none w m in
      (c, omega (arith, p, first_pauses e.retries))

  fail_over-Within :
      (es : List (Entry World)) (last : Option Bytes) (w : World)
      → All IsMetered es
      → Within (all_calls es) (all_pauses es) w (fail_over wait es msgs last w).1
  unfolding fail_over
  fail_over-Within [] last w ms = (omega arith, omega arith)
  fail_over-Within (e ∷ es) last w (m, ms) =
      let (c, p) = try-Within e w m in
      elim (Outcome-cases (try_with_retries wait e msgs w).0) [
        | inl (resp, h) ↦ rw (h, fail_over) (omega (arith, c), omega (arith, p))
        | inr (x, h) ↦
            let (d, q) = fail_over-Within es x (try_with_retries wait e msgs w).1 ms in
            rw (h, fail_over) (omega (arith, c, d), omega (arith, p, q))
      ]

  -- Where a call counts once and is no pause, a request costs each provider, however they fail, one
  -- call more than its retries at most, and pauses of half a second times one less than two to the
  -- number of its retries.
  pub chat-Within :
      (es : List (Entry World)) (w : World)
      → All IsMetered es
      → (M.chats (chat wait es msgs w).1 ≤ M.chats w + all_calls es)
        × (M.waited (chat wait es msgs w).1 ≤ M.waited w + all_pauses es)
  unfolding chat
  chat-Within es w ms = fail_over-Within es none w ms
