-- ===== src/Skill/Broker/Laws.antt =====
-- Nothing is touched without a permission.
use gogoclaw.Base.{
  ℕ, ◌≤◌, ◌≡◌, ◌⊎◌, refl, inl, inr, arith, Bool, false, Option, none, some, List, [], ◌∷◌, length,
  Option-cases, Bool-cases, ltb, ◌&&◌,
}
use gogoclaw.Base.Bytes.{Bytes, bytes_eq_refl}
use gogoclaw.Base.Outcome.{ok, err, Outcome-cases}
use gogoclaw.Security.Path.{Files, check_path_allowed}
use gogoclaw.Skill.Broker.{
  Permissions, CapabilityBroker, not_registered, get_caps, unregister_skill, register_skill,
  check_network, check_env_var, check_paths, check_write_path, file_read, file_write, write_checked,
  check_read_path,
}

module _ (fs : Files) {World : Type 0} (read_file : Bytes → World → Option Bytes)
    (write_file : Bytes → Bytes → World → Bool × World) where
  check_paths_ok :
      (allowed : List Bytes) (path : Bytes)
      → check_paths fs allowed path ≡ ok tt
      → check_path_allowed fs allowed path ≡ ok tt
  unfolding check_paths
  check_paths_ok [] path h = absurd (cc)
  check_paths_ok (a ∷ more) path h = elim (Outcome-cases (check_path_allowed fs (a ∷ more) path)) [
    | inl (u, e) ↦ e
    | inr (x, e) ↦ absurd (ground arith)
  ]

  allowed_size : (max size : ℕ) → ltb 0 max && ltb max size ≡ false → (max ≡ 0) ⊎ (size ≤ max)
  allowed_size max size h = ground arith

  checked_write :
      (b : CapabilityBroker) (name path : Bytes) (p : Permissions)
      → get_caps b name ≡ some p
      → check_write_path fs b name path ≡ ok tt
      → check_path_allowed fs p.write_paths path ≡ ok tt
  unfolding check_write_path
  checked_write b name path p here h = check_paths_ok p.write_paths path (ground arith)

  -- A write that changes any file comes from a registered skill whose permissions allow the path,
  -- and what it writes is no longer than the permissions' limit, if they have one.
  pub file_write_guarded :
      (b : CapabilityBroker) (name path text : Bytes) (w : World)
      → ((file_write fs read_file write_file b name path text w).1 ≡ w)
        ⊎ ((p : Permissions) × (get_caps b name ≡ some p)
            × (check_path_allowed fs p.write_paths path ≡ ok tt)
            × ((p.max_file_size ≡ 0) ⊎ (length text ≤ p.max_file_size)))
  unfolding file_write write_checked
  file_write_guarded b name path text w = elim (Outcome-cases (check_write_path fs b name path)) [
    | inr (x, denied) ↦ inl (ground arith)
    | inl (u, allowed) ↦ elim (Option-cases (get_caps b name)) [
      | inl gone ↦ inl (ground arith)
      | inr (p, here) ↦
          elim (Bool-cases (ltb 0 p.max_file_size && ltb p.max_file_size (length text))) [
            | inl large ↦ inl (ground arith)
            | inr fits ↦ inr (
              p,
              here,
              checked_write b name path p here allowed,
              allowed_size p.max_file_size (length text) fits,
            )
          ]
    ]
  ]

get_caps-unregister_skill :
    (b : CapabilityBroker) (name : Bytes) → get_caps (unregister_skill b name) name ≡ none
unfolding get_caps unregister_skill
get_caps-unregister_skill [] name = refl
get_caps-unregister_skill ((n, p) ∷ rest) name = ground (arith, get_caps-unregister_skill rest name)

get_caps-register_skill :
    (b : CapabilityBroker) (name : Bytes) (p : Permissions)
    → get_caps (register_skill b name p) name ≡ some p
unfolding get_caps register_skill
get_caps-register_skill b name p = ground (arith, bytes_eq_refl name)

-- A skill that is taken off the broker can no longer use the network, the environment or any
-- file, until it is registered again, when it has the permissions of that registration.
pub unregister_skill_denied :
    (fs : Files) {World : Type 0} (read_file : Bytes → World → Option Bytes)
    (write_file : Bytes → Bytes → World → Bool × World) (b : CapabilityBroker)
    (name target text : Bytes) (p : Permissions) (w : World)
    → let gone = unregister_skill b name in
      (check_network gone name target ≡ err not_registered)
      × (check_env_var gone name target ≡ err not_registered)
      × (file_read fs read_file write_file gone name target w ≡ err not_registered)
      × (file_write fs read_file write_file gone name target text w ≡ (err not_registered, w))
      × (get_caps (register_skill gone name p) name ≡ some p)
unfolding check_network check_env_var file_read file_write check_read_path check_write_path
unregister_skill_denied fs read_file write_file b name target text p w =
    let none_left = get_caps-unregister_skill b name in
    (
      rw (none_left, check_network) refl,
      rw (none_left, check_env_var) refl,
      rw (none_left, check_read_path, file_read) refl,
      rw (none_left, check_write_path, file_write) refl,
      get_caps-register_skill (unregister_skill b name) name p,
    )
