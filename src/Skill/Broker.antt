-- ===== src/Skill/Broker.antt =====
-- internal/skill/host.go: the broker that all input and output of a skill goes through. The
-- contents of files are a world of their own; the log callback is left out.
pub mod Laws
use gogoclaw.Base.{
  ℕ, ◌==◌, ltb, ◌&&◌, ◌||◌, Bool, true, false, not, if◌then◌else◌, Option, none, some, List, [],
  ◌∷◌, length, any_of,
}
use gogoclaw.Base.Bytes.{Bytes, bytes_eq}
use gogoclaw.Base.Outcome.{Outcome, ok, err}
use gogoclaw.Security.Path.{Files, PathError, check_path_allowed}

-- `Permissions`, its records flattened. A maximal size that is not positive is 0 here.
pub record Permissions : Type 0 where
  pub read_paths : List Bytes
  pub write_paths : List Bytes
  pub network_allowed : Bool
  pub domains : List Bytes
  pub env_vars : List Bytes
  pub max_file_size : ℕ

-- The registered skills by name.
abbrev pub CapabilityBroker : Type 0
CapabilityBroker = List (Bytes × Permissions)

pub data SkillError : Type 0 where
  not_registered no_paths too_large io_failed network_denied domain_denied env_denied : SkillError
  path_denied : PathError → SkillError

unfoldable pub get_caps : CapabilityBroker → Bytes → Option Permissions
unfolding bytes_eq
get_caps [] name = none
get_caps ((n, p) ∷ rest) name = if bytes_eq n name then some p else get_caps rest name

unfoldable pub unregister_skill : CapabilityBroker → Bytes → CapabilityBroker
unfolding bytes_eq
unregister_skill [] name = []
unregister_skill ((n, p) ∷ rest) name =
    let others = unregister_skill rest name in if bytes_eq n name then others else (n, p) ∷ others

unfoldable pub register_skill : CapabilityBroker → Bytes → Permissions → CapabilityBroker
unfolding unregister_skill
register_skill b name p = (name, p) ∷ unregister_skill b name

-- `CheckNetwork`
unfoldable pub check_network : CapabilityBroker → Bytes → Bytes → Outcome SkillError (Unit {0})
unfolding get_caps
check_network b name domain = elim (get_caps b name) [
  | none ↦ err not_registered
  | some p ↦
      if not p.network_allowed
      then err network_denied
      else if length p.domains == 0
      then ok tt
      else if any_of (λ d. bytes_eq d domain) p.domains
      then ok tt
      else err domain_denied
]

-- `CheckEnvVar`
unfoldable pub check_env_var : CapabilityBroker → Bytes → Bytes → Outcome SkillError (Unit {0})
unfolding get_caps
check_env_var b name var = elim (get_caps b name) [
  | none ↦ err not_registered
  | some p ↦ if any_of (λ v. bytes_eq v var) p.env_vars then ok tt else err env_denied
]

module _ (fs : Files) where
  check_paths : List Bytes → Bytes → Outcome SkillError (Unit {0})
  unfolding check_path_allowed
  check_paths [] path = err no_paths
  check_paths (a ∷ allowed) path = elim (check_path_allowed fs (a ∷ allowed) path) [
    | ok done ↦ ok done
    | err e ↦ err (path_denied e)
  ]

  unfoldable pub check_read_path : CapabilityBroker → Bytes → Bytes → Outcome SkillError (Unit {0})
  unfolding get_caps check_paths
  check_read_path b name path = elim (get_caps b name) [
    | none ↦ err not_registered
    | some p ↦ check_paths p.read_paths path
  ]

  unfoldable pub check_write_path : CapabilityBroker → Bytes → Bytes → Outcome SkillError (Unit {0})
  unfolding get_caps check_paths
  check_write_path b name path = elim (get_caps b name) [
    | none ↦ err not_registered
    | some p ↦ check_paths p.write_paths path
  ]

  module _ {World : Type 0} (read_file : Bytes → World → Option Bytes)
      (write_file : Bytes → Bytes → World → Bool × World) where
    unfoldable pub file_read : CapabilityBroker → Bytes → Bytes → World → Outcome SkillError Bytes
    unfolding check_read_path
    file_read b name path w = elim (check_read_path b name path) [
      | err e ↦ err e
      | ok done ↦ elim (read_file path w) [ some text ↦ ok text | none ↦ err io_failed ]
    ]

    write_checked : Permissions → Bytes → Bytes → World → Outcome SkillError (Unit {0}) × World
    write_checked p path text w =
        if ltb 0 p.max_file_size && ltb p.max_file_size (length text)
        then (err too_large, w)
        else (let (fine, w') = write_file path text w in
            (if fine then ok tt else err io_failed, w'))

    unfoldable pub file_write :
        CapabilityBroker → Bytes → Bytes → Bytes → World → Outcome SkillError (Unit {0}) × World
    unfolding check_write_path get_caps write_checked
    file_write b name path text w = elim (check_write_path b name path) [
      | err e ↦ (err e, w)
      | ok done ↦ elim (get_caps b name) [
        | none ↦ (err not_registered, w)
        | some p ↦ write_checked p path text w
      ]
    ]
