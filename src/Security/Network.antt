-- ===== src/Security/Network.antt =====
-- internal/security/network.go: the allowlist of outbound requests. The Go maps of domains are
-- lists of names; locks are left out, since every method holds one throughout.
pub mod Laws
use mathlib.Core.Option
use gogoclaw.Base.{
  ℕ, suc, ◌+◌, ◌==◌, Bool, true, false, not, ◌&&◌, ◌||◌, if◌then◌else◌, Option, none, some, List,
  [], ◌∷◌, ◌++◌, length, take, drop, any_of,
}
use gogoclaw.Base.Bytes.{
  Bytes, bytes, bytes_eq, has_prefix, has_suffix, last_index, to_lower, trim_space,
}

pub record NetworkGuard : Type 0 where
  pub global_allow : List Bytes
  pub wildcard_allow : List Bytes
  pub agent_allow : List Bytes
  pub agent_wildcards : List Bytes
  pub deny_all : Bool
  pub log_blocked : Bool
  pub has_on_blocked : Bool

pub record NetworkGuardConfig : Type 0 where
  pub allowlist : List Bytes
  pub deny_all_others : Bool
  pub log_blocked : Bool
  pub has_on_blocked : Bool

-- `strings.ToLower(strings.TrimSpace(domain))`
unfoldable pub normalize : Bytes → Bytes
unfolding trim_space to_lower
normalize domain = to_lower (trim_space domain)

abbrev pub dot : ℕ
dot = b'.'

unfoldable pub add_domain : NetworkGuard → Bytes → NetworkGuard
unfolding normalize bytes_eq has_prefix
add_domain g domain =
    let d = normalize domain in
    if bytes_eq d []
    then g
    else if has_prefix d (dot ∷ [])
    then record g { wildcard_allow = g.wildcard_allow ++ (d ∷ []) }
    else record g { global_allow = d ∷ g.global_allow }

add_domains : NetworkGuard → List Bytes → NetworkGuard
unfolding add_domain
add_domains g [] = g
add_domains g (d ∷ ds) = add_domains (add_domain g d) ds

unfoldable pub new_network_guard : NetworkGuardConfig → NetworkGuard
unfolding add_domains
new_network_guard cfg =
    add_domains
      (record {
        global_allow = [];
        wildcard_allow = [];
        agent_allow = [];
        agent_wildcards = [];
        deny_all = cfg.deny_all_others;
        log_blocked = cfg.log_blocked;
        has_on_blocked = cfg.has_on_blocked;
      })
      cfg.allowlist

add_agent_domain : NetworkGuard → Bytes → NetworkGuard
unfolding normalize has_prefix
add_agent_domain g domain =
    let d = normalize domain in
    if has_prefix d (dot ∷ [])
    then record g { agent_wildcards = g.agent_wildcards ++ (d ∷ []) }
    else record g { agent_allow = d ∷ g.agent_allow }

unfoldable pub add_agent_allowlist : NetworkGuard → List Bytes → NetworkGuard
unfolding add_agent_domain
add_agent_allowlist g [] = g
add_agent_allowlist g (domain ∷ domains) = add_agent_allowlist (add_agent_domain g domain) domains

abbrev has_byte : ℕ → Bytes → Bool
has_byte c = any_of (λ b. b == c)

-- The index of the first `c`.
abbrev index_byte : Bytes → ℕ → Option ℕ
index_byte [] c = none
index_byte (b ∷ bs) c = if b == c then some 0 else Option.map suc (index_byte bs c)

-- The host of `net.SplitHostPort(s)`, with `i` the index of the last colon; `none` for an error.
split_bracketed : Bytes → ℕ → Option Bytes
split_bracketed s i = elim (index_byte s b']') [
  | none ↦ none
  | some end ↦
      if not (end + 1 == i) || has_byte b'[' (drop 1 s) || has_byte b']' (drop (end + 1) s)
      then none
      else some (drop 1 (take end s))
]

split_plain : Bytes → ℕ → Option Bytes
split_plain s i =
    if has_byte b':' (take i s) || has_byte b'[' s || has_byte b']' s then none else some (take i s)

unfoldable pub split_host_port : Bytes → Option Bytes
unfolding last_index has_prefix split_bracketed split_plain
split_host_port s = elim (last_index s (bytes ":")) [
  | none ↦ none
  | some i ↦ if has_prefix s (bytes "[") then split_bracketed s i else split_plain s i
]

abbrev listed : Bytes → List Bytes → Bool
listed d = any_of (λ e. bytes_eq e d)

-- `.schwab.com` matches `www.schwab.com` and `schwab.com`. A wildcard is never empty, so `w[1:]`
-- is its tail.
unfoldable pub wildcard_matches : Bytes → Bytes → Bool
unfolding bytes_eq has_suffix
wildcard_matches d w = has_suffix d w || bytes_eq d (drop 1 w)

unfoldable pub host_of : Bytes → Bytes
unfolding normalize split_host_port
host_of domain =
    let d = normalize domain in elim (split_host_port d) [ some host ↦ host | none ↦ d ]

unfoldable pub is_allowed : NetworkGuard → Bytes → Bool
unfolding host_of wildcard_matches
is_allowed g domain =
    let d = host_of domain in
    if listed d g.global_allow
    then true
    else if listed d g.agent_allow
    then true
    else if any_of (wildcard_matches d) g.wildcard_allow
    then true
    else if any_of (wildcard_matches d) g.agent_wildcards
    then true
    else not g.deny_all

-- `onBlocked(domain, requester, …)`, with the time left out.
pub record Blocked : Type 0 where
  pub domain : Bytes
  pub requester : Bytes

-- `CheckAndLog`: the decision, and what is reported.
unfoldable pub check_and_log : NetworkGuard → Bytes → Bytes → Bool × List Blocked
unfolding is_allowed
check_and_log g domain requester =
    if is_allowed g domain
    then (true, [])
    else if g.log_blocked && g.has_on_blocked
    then (false, record { domain = domain; requester = requester } ∷ [])
    else (false, [])

-- `guardedTransport.RoundTrip`: the hosts that the inner transport is asked for, and the reports.
unfoldable pub round_trip : NetworkGuard → Bytes → Bytes → List Bytes × List Blocked
unfolding check_and_log
round_trip g requester host =
    let (allowed, reports) = check_and_log g host requester in
    (if allowed then host ∷ [] else [], reports)
