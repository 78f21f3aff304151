-- ===== src/Keys/Editing.antt =====
-- keys-panel/store.go: RevokeKey, RotateKey, UpdateKeyMeta and Sync, and what they share with AddKeys.
use tproxy_server.Base.{
  ℕ, Bool, true, false, not, ◌||◌, Option, none, some, List, [], ◌∷◌, ◌==◌, if◌then◌else◌, length,
  bytes_equal,
}
use tproxy_server.Base.Table.{Map, bytes_key, lookup, insert, delete}
use tproxy_server.Keys.{Profile, BackendInfo}
use tproxy_server.Keys.Applying.{
  System, ApplyError, Synced, apply, sync_backend_secrets, restart_stack,
}

pub record KeyMeta : Type 0 where
  pub label : List ℕ
  pub group : List ℕ
  pub note : List ℕ
  pub created : List ℕ

abbrev pub Meta : Type 0
Meta = Map (List ℕ) KeyMeta

-- The rest of the host: LoadProfiles, LoadMeta and SaveMeta read and write files, `provision` is
-- provisionBackend, `new_secret` is NewSecret, `now` the time as text, `trim` strings.TrimSpace.
pub record Panel (W : Type 0) : Type 0 where
  pub load_profiles : W → Option (List Profile)
  pub load_meta : W → Meta
  pub save_meta : Meta → W → Bool × W
  pub provision : W → Bool × W
  pub new_secret : W → Option (List ℕ) × W
  pub now : W → List ℕ
  pub trim : List ℕ → List ℕ

pub data EditError : Type 0 where
  no_requests no_profiles no_backends too_many_keys bad_name name_taken bad_carrier : EditError
  no_room no_secret no_such_key last_key not_saved not_synced not_restarted : EditError
  not_applied : ApplyError → EditError

abbrev pub found_among : List ℕ → List Profile → Bool
found_among name [] = false
found_among name (p ∷ ps) = bytes_equal p.name name || found_among name ps

-- The keys without the one of a name.
unfoldable pub without : List ℕ → List Profile → List Profile
without name [] = []
without name (p ∷ ps) = if bytes_equal p.name name then without name ps else p ∷ without name ps

-- The first key of a name gets a new secret.
unfoldable pub with_new_secret : List ℕ → List ℕ → List Profile → List Profile
with_new_secret name secret [] = []
with_new_secret name secret (p ∷ ps) =
    if bytes_equal p.name name
    then record p { secret = secret } ∷ ps
    else p ∷ with_new_secret name secret ps

abbrev units_of : List BackendInfo → List (List ℕ)
units_of [] = []
units_of (b ∷ registry) = b.unit ∷ units_of registry

-- `meta.Keys[name]`
abbrev entry_of : List ℕ → Meta → KeyMeta
entry_of name meta = elim (lookup name meta) [
  | none ↦ record { label = []; group = []; note = []; created = [] }
  | some entry ↦ entry
]

module _ {W : Type 0} ⦃s : System W⦄ ⦃l : Panel W⦄ where
  abbrev forgotten : List ℕ → Option ApplyError × W → Option EditError × W
  forgotten name (some e, w) = (some (not_applied e), w)
  forgotten name (none, w) = (none, (l.save_meta (delete name (l.load_meta w)) w).1)

  unfoldable pub revoke_key : List ℕ → List ℕ → W → Option EditError × W
  unfolding without
  revoke_key path name w = elim (l.load_profiles w) [
    | none ↦ (some no_profiles, w)
    | some ps ↦
        if not (found_among name ps)
        then (some no_such_key, w)
        else if length (without name ps) == 0
        then (some last_key, w)
        else forgotten name (apply path (without name ps) w)
  ]

  abbrev rotated : Option ApplyError × W → Option EditError × W
  rotated (some e, w) = (some (not_applied e), w)
  rotated (none, w) = (none, w)

  abbrev with_rotation : List ℕ → List ℕ → List Profile → Option (List ℕ) × W → Option EditError × W
  with_rotation path name ps (none, w) = (some no_secret, w)
  with_rotation path name ps (some secret, w) =
      if not (found_among name ps)
      then (some no_such_key, w)
      else rotated (apply path (with_new_secret name secret ps) w)

  -- `none` is success. The key that RotateKey then gives back is the rotated one.
  unfoldable pub rotate_key : List ℕ → List ℕ → W → Option EditError × W
  unfolding with_new_secret
  rotate_key path name w = elim (l.load_profiles w) [
    | none ↦ (some no_profiles, w)
    | some ps ↦ with_rotation path name ps (l.new_secret w)
  ]

  abbrev saved : Bool × W → Option EditError × W
  saved (true, w) = (none, w)
  saved (false, w) = (some not_saved, w)

  unfoldable pub update_key_meta : List ℕ → List ℕ → List ℕ → W → Option EditError × W
  update_key_meta name label group w = elim (l.load_profiles w) [
    | none ↦ (some no_profiles, w)
    | some ps ↦
        if not (found_among name ps)
        then (some no_such_key, w)
        else saved (
            l.save_meta
              (insert name
                (record (entry_of name (l.load_meta w)) {
                  label = l.trim label;
                  group = l.trim group;
                  created =
                      if length (entry_of name (l.load_meta w)).created == 0
                      then l.now w
                      else (entry_of name (l.load_meta w)).created;
                })
                (l.load_meta w))
              w)
  ]

  abbrev restarted_all : Bool × W → Option EditError × W
  restarted_all (true, w) = (none, w)
  restarted_all (false, w) = (some not_restarted, w)

  abbrev resynced : List (List ℕ) → Synced W → Option EditError × W
  resynced units (none, w) = (some not_synced, w)
  resynced units (some changed, w) = restarted_all (restart_stack units w)

  -- Sync restarts the unit of every backend, changed or not.
  unfoldable pub sync : W → Option EditError × W
  unfolding sync_backend_secrets restart_stack
  sync w = elim (l.load_profiles w) [
    | none ↦ (some no_profiles, w)
    | some ps ↦ elim (s.load_backends w) [
      | none ↦ (some no_backends, w)
      | some registry ↦ resynced (units_of registry) (sync_backend_secrets registry ps w)
    ]
  ]
