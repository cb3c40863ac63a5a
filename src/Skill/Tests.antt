-- ===== src/Skill/Tests.antt =====
-- A broker with one skill, on a file system without links and a disk that counts its writes.
use gogoclaw.Base.{ℕ, suc, ◌≤◌, ◌≡◌, ◌⊎◌, refl, Bool, true, Option, some, [], ◌∷◌, length}
use gogoclaw.Base.Bytes.{Bytes, bytes}
use gogoclaw.Base.Outcome.{ok, err}
use gogoclaw.Security.Path.{Files, check_path_allowed}
use gogoclaw.Skill.Broker.{
  Permissions, CapabilityBroker, not_registered, get_caps, unregister_skill, register_skill,
  check_network, check_env_var, file_read, file_write,
}
use gogoclaw.Skill.Broker.Laws.{file_write_guarded, unregister_skill_denied}

abbrev plain_files : Files
plain_files = record {
  abs = λ p. some p;
  clean = λ p. p;
  dir = λ p. p;
  base = λ p. [];
  join = λ p q. p;
  is_abs = λ p. true;
  to_slash = λ p. p;
  exists = λ p. true;
  eval_symlinks = λ p. some p;
}

abbrev reading : Bytes → ℕ → Option Bytes
reading path w = some (bytes "text")

abbrev writing : Bytes → Bytes → ℕ → Bool × ℕ
writing path text w = (true, suc w)

abbrev notes : Permissions
notes = record {
  read_paths = [];
  write_paths = bytes "/notes" ∷ [];
  network_allowed = true;
  domains = [];
  env_vars = [];
  max_file_size = 8;
}

abbrev broker : CapabilityBroker
broker = (bytes "notes", notes) ∷ []

abbrev note : Bytes
note = bytes "/notes/a"

file_write_sample :
    file_write plain_files reading writing broker (bytes "notes") note (bytes "hello") 0
    ≡ (ok tt, 1)
unfolding file_write
file_write_sample = refl

file_write_guarded_example :
    ((file_write plain_files reading writing broker (bytes "notes") note (bytes "hello") 0).1 ≡ 0)
    ⊎ ((p : Permissions) × (get_caps broker (bytes "notes") ≡ some p)
        × (check_path_allowed plain_files p.write_paths note ≡ ok tt)
        × ((p.max_file_size ≡ 0) ⊎ (length (bytes "hello") ≤ p.max_file_size)))
file_write_guarded_example =
    file_write_guarded plain_files reading writing broker (bytes "notes") note (bytes "hello") 0

unregister_skill_denied_example :
    let gone = unregister_skill broker (bytes "notes") in
    (check_network gone (bytes "notes") note ≡ err not_registered)
    × (check_env_var gone (bytes "notes") note ≡ err not_registered)
    × (file_read plain_files reading writing gone (bytes "notes") note 0 ≡ err not_registered)
    × (file_write plain_files reading writing gone (bytes "notes") note (bytes "hello") 0
        ≡ (err not_registered, 0))
    × (get_caps (register_skill gone (bytes "notes") notes) (bytes "notes") ≡ some notes)
unregister_skill_denied_example =
    unregister_skill_denied plain_files reading writing broker (bytes "notes") note (bytes "hello")
      notes 0
