-- ===== src/Security/Tests.antt =====
-- The validator and the guard on a concrete file system and allowlist.
use gogoclaw.Base.{◌≡◌, ◌≢◌, ◌↔◌, ◌&&◌, refl, arith, true, false, some, [], ◌∷◌}
use gogoclaw.Base.Bytes.{Bytes, bytes}
use gogoclaw.Base.Outcome.{ok}
use gogoclaw.Security.Path.{Files, slash, is_within, validate}
use gogoclaw.Security.Path.Laws.{IsUnder, is_within_iff, is_within_root_dir}
use gogoclaw.Security.Network.{
  NetworkGuard, new_network_guard, normalize, add_agent_allowlist, add_domain, host_of, is_allowed,
  round_trip,
}
use gogoclaw.Security.Network.Laws.{
  HasRule, is_allowed-HasRule, round_trip-HasRule, is_allowed-add_agent_allowlist,
  add_agent_allowlist_blank,
}

-- Every path is absolute and clean and has no links.
abbrev plain_files : Files
plain_files = record {
  abs = λ p. some p;
  clean = λ p. p;
  dir = λ p. p;
  base = λ p. [];
  join = λ p q. p;
  is_abs = λ p. true;
  to_slash = λ p. p;
  exists = λ p. true;
  eval_symlinks = λ p. some p;
}

abbrev work : Bytes
work = bytes "/work"

abbrev note : Bytes
note = bytes "/work/note"

is_within_iff_example : (is_within note work ≡ true) ↔ IsUnder note work
is_within_iff_example = is_within_iff note work

validate_sample : validate plain_files (work ∷ []) note ≡ ok note
unfolding validate
validate_sample = refl

is_within_root_dir_example : is_within (slash ∷ b'w' ∷ []) (slash ∷ []) ≡ false
is_within_root_dir_example = is_within_root_dir b'w' [] (omega arith)

abbrev guard : NetworkGuard
guard = record {
  global_allow = bytes "api.example.com" ∷ [];
  wildcard_allow = bytes ".example.org" ∷ [];
  agent_allow = [];
  agent_wildcards = [];
  deny_all = true;
  log_blocked = true;
  has_on_blocked = true;
}

abbrev site : Bytes
site = bytes "www.Example.org:443"

site_allowed : is_allowed guard site ≡ true
unfolding is_allowed
site_allowed = refl

new_network_guard_sample :
    new_network_guard (record {
      allowlist = bytes " API.example.com" ∷ bytes ".example.org" ∷ bytes " " ∷ [];
      deny_all_others = true;
      log_blocked = true;
      has_on_blocked = true;
    })
    ≡ guard
unfolding new_network_guard
new_network_guard_sample = refl

is_allowed-HasRule_example : HasRule guard (host_of site)
is_allowed-HasRule_example = is_allowed-HasRule guard site refl site_allowed

round_trip-HasRule_example :
    ((round_trip guard (bytes "skill") site).0 ≢ [] → HasRule guard (host_of site))
    × ((round_trip guard (bytes "skill") site).0 ≡ []
        → guard.log_blocked && guard.has_on_blocked ≡ true
        → (round_trip guard (bytes "skill") site).1
          ≡ record { domain = site; requester = bytes "skill" } ∷ [])
round_trip-HasRule_example = round_trip-HasRule guard (bytes "skill") site refl

is_allowed-add_agent_allowlist_example :
    is_allowed (add_agent_allowlist guard (bytes ".net" ∷ [])) site ≡ true
is_allowed-add_agent_allowlist_example =
    is_allowed-add_agent_allowlist (bytes ".net" ∷ []) guard site site_allowed

blank_entry : normalize (bytes " ") ≡ []
unfolding normalize
blank_entry = refl

no_host : host_of (bytes ":80") ≡ []
unfolding host_of
no_host = refl

add_agent_allowlist_blank_example :
    (is_allowed (add_agent_allowlist guard (bytes " " ∷ [])) (bytes ":80") ≡ true)
    × (add_domain guard (bytes " ") ≡ guard)
add_agent_allowlist_blank_example =
    add_agent_allowlist_blank guard (bytes " ") (bytes ":80") blank_entry no_host
