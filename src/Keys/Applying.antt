-- ===== src/Keys/Applying.antt =====
-- keys-panel/store.go: Apply and what it calls, over the files and the services of the host.
pub mod Rollback
use tproxy_server.Base.{
  ℕ, Bool, true, false, not, ◌&&◌, ◌||◌, Option, none, some, List, [], ◌∷◌, ◌++◌, ltb, ◌==◌,
  if◌then◌else◌, length, bytes_equal,
}
use tproxy_server.Base.Text.{join}
use tproxy_server.Token.{codes}
use tproxy_server.Keys.{Profile, BackendInfo, KeyError, Seen, backend_secret, check_keys}
use tproxy_server.Keys.Secrets.{upsert_secret_args}

-- os.ReadFile: `missing` is the error that os.IsNotExist tells.
pub data Read : Type 0 where
  content : List ℕ → Read
  missing unreadable : Read

-- The host, as a state `W` and its calls. `write_file` is writeFileAtomic, which renames a complete
-- file into place; `relay_accepts` writes a candidate beside the profiles file and runs the relay
-- with -check on it; `restart` is `systemctl restart`, and `await_ready` asks the relay for 25
-- seconds. LoadBackends and maxProfiles read the host's files. `marshal` and `unmarshal` are JSON.
pub record System (W : Type 0) : Type 0 where
  pub load_backends : W → Option (List BackendInfo)
  pub max_profiles : W → ℕ
  pub marshal : List Profile → Option (List ℕ)
  pub unmarshal : List ℕ → Option (List Profile)
  pub read_file : List ℕ → W → Read
  pub write_file : List ℕ → List ℕ → W → Bool × W
  pub relay_accepts : List ℕ → W → Bool × W
  pub restart : List ℕ → W → Bool × W
  pub await_ready : W → Bool × W

-- How Apply fails.
pub data ApplyError : Type 0 where
  no_keys too_many no_registry : ApplyError
  bad_key : KeyError → ApplyError
  not_marshalled not_read rejected not_written not_synced restored rollback_failed : ApplyError

-- The arguments of a backend: "-S " and the secret of each of its keys, in the order of the file.
abbrev arguments : List ℕ → List Profile → List (List ℕ)
arguments address [] = []
arguments address (p ∷ ps) =
    if bytes_equal p.backend address
    then (codes "-S " ++ backend_secret p.secret) ∷ arguments address ps
    else arguments address ps

abbrev pub joined_arguments : List ℕ → List Profile → List ℕ
joined_arguments address ps = join 32 (arguments address ps)

-- The units that changed, `none` for an error.
abbrev pub Synced : Type 0 → Type 0
Synced W = Option (List (List ℕ)) × W

module _ {W : Type 0} ⦃s : System W⦄ where
  abbrev pub rewritten : List ℕ → Bool × W → Synced W
  rewritten unit (true, w) = (some (unit ∷ []), w)
  rewritten unit (false, w) = (none, w)

  abbrev pub sync_content : BackendInfo → List Profile → List ℕ → W → Synced W
  sync_content b ps existing w =
      if bytes_equal existing (upsert_secret_args existing (joined_arguments b.address ps))
      then (some [], w)
      else rewritten b.unit
          (s.write_file b.env_file (upsert_secret_args existing (joined_arguments b.address ps)) w)

  -- One round of the second loop of syncBackendSecrets. A missing file counts as an empty one.
  abbrev pub sync_read : BackendInfo → List Profile → W → Read → Synced W
  sync_read b ps w unreadable = (none, w)
  sync_read b ps w missing = sync_content b ps [] w
  sync_read b ps w (content existing) = sync_content b ps existing w

  abbrev pub changed_too : List (List ℕ) → Synced W → Synced W
  changed_too units (none, w) = (none, w)
  changed_too units (some later, w) = (some (units ++ later), w)

  abbrev pub then_sync : Synced W → (W → Synced W) → Synced W
  then_sync (none, w) f = (none, w)
  then_sync (some units, w) f = changed_too units (f w)

  unfoldable pub sync_backend_secrets : List BackendInfo → List Profile → W → Synced W
  sync_backend_secrets [] ps w = (some [], w)
  sync_backend_secrets (b ∷ registry) ps w =
      then_sync (sync_read b ps w (s.read_file b.env_file w)) (sync_backend_secrets registry ps)

  abbrev pub then_go : Bool × W → (W → Bool × W) → Bool × W
  then_go (false, w) f = (false, w)
  then_go (true, w) f = f w

  unfoldable pub restart_stack : List (List ℕ) → W → Bool × W
  restart_stack [] w = then_go (s.restart (codes "tproxy-server.service") w) s.await_ready
  restart_stack (unit ∷ units) w = then_go (s.restart unit w) (restart_stack units)

module _ {W : Type 0} ⦃s : System W⦄ (profiles_path : List ℕ) where
  unfoldable pub restore : List ℕ → W → W
  restore previous w = (s.write_file profiles_path previous w).1

  abbrev pub rolled_back : Bool × W → Option ApplyError × W
  rolled_back (true, w) = (some restored, w)
  rolled_back (false, w) = (some rollback_failed, w)

  abbrev pub restart_again : List (List ℕ) → Synced W → Option ApplyError × W
  restart_again units (none, w) = rolled_back (restart_stack units w)
  restart_again units (some restored_units, w) = rolled_back (restart_stack restored_units w)

  -- After a restart that failed.
  unfoldable pub roll_back : List BackendInfo → List ℕ → List (List ℕ) → W → Option ApplyError × W
  unfolding restore sync_backend_secrets restart_stack
  roll_back registry previous units w = elim (s.unmarshal previous) [
    | none ↦ rolled_back (restart_stack units (restore previous w))
    | some ps ↦ restart_again units (sync_backend_secrets registry ps (restore previous w))
  ]

  abbrev pub restarted :
      List BackendInfo → List ℕ → List (List ℕ) → Bool × W → Option ApplyError × W
  restarted registry previous units (true, w) = (none, w)
  restarted registry previous units (false, w) = roll_back registry previous units w

  abbrev pub synced : List BackendInfo → List ℕ → Synced W → Option ApplyError × W
  synced registry previous (none, w) = (some not_synced, restore previous w)
  synced registry previous (some units, w) =
      restarted registry previous units (restart_stack units w)

  abbrev pub installed : List BackendInfo → List Profile → List ℕ → Bool × W → Option ApplyError × W
  installed registry ps previous (false, w) = (some not_written, w)
  installed registry ps previous (true, w) =
      synced registry previous (sync_backend_secrets registry ps w)

  abbrev pub checked :
      List BackendInfo → List Profile → List ℕ → List ℕ → Bool × W → Option ApplyError × W
  checked registry ps candidate previous (false, w) = (some rejected, w)
  checked registry ps candidate previous (true, w) =
      installed registry ps previous (s.write_file profiles_path candidate w)

  abbrev pub with_previous :
      List BackendInfo → List Profile → List ℕ → W → Read → Option ApplyError × W
  with_previous registry ps candidate w missing = (some not_read, w)
  with_previous registry ps candidate w unreadable = (some not_read, w)
  with_previous registry ps candidate w (content previous) =
      checked registry ps candidate previous (s.relay_accepts candidate w)

  abbrev pub with_registry : List BackendInfo → List Profile → W → Option ApplyError × W
  with_registry registry ps w =
      elim (check_keys registry ps (record { names = []; secrets = []; per_backend = [] })) [
        | some e ↦ (some (bad_key e), w)
        | none ↦ elim (s.marshal ps) [
          | none ↦ (some not_marshalled, w)
          | some candidate ↦ with_previous registry ps candidate w (s.read_file profiles_path w)
        ]
      ]

  -- `none` is success.
  unfoldable pub apply : List Profile → W → Option ApplyError × W
  unfolding roll_back restore sync_backend_secrets restart_stack
  apply ps w =
      if length ps == 0
      then (some no_keys, w)
      else if ltb (s.max_profiles w) (length ps)
      then (some too_many, w)
      else elim (s.load_backends w) [
        | none ↦ (some no_registry, w)
        | some registry ↦ with_registry registry ps w
      ]
