-- ===== src/Keys/Adding.antt =====
-- keys-panel/store.go: AddKeys and chooseBackend.
pub mod Assigned
use tproxy_server.Base.{
  ℕ, ◌+◌, Bool, true, false, not, ◌&&◌, ◌||◌, Option, none, some, List, [], ◌∷◌, ◌++◌, ◌⊎◌, inl,
  inr, ltb, ◌==◌, if◌then◌else◌, length, bytes_equal,
}
use tproxy_server.Base.Table.{Map, bytes_key, lookup, insert, delete, has}
use tproxy_server.Keys.{
  Profile, BackendInfo, Usage, backend_usage, one_more, pick_backend, matches_name, valid_carrier,
}
use tproxy_server.Keys.Applying.{System, ApplyError, apply}
use tproxy_server.Keys.Editing.{
  Panel, Meta, KeyMeta, EditError, no_requests, no_profiles, no_backends, too_many_keys, bad_name,
  name_taken, bad_carrier, no_room, not_applied,
}

pub record NewKeyRequest : Type 0 where
  pub name : List ℕ
  pub label : List ℕ
  pub group : List ℕ
  pub mode : List ℕ

abbrev names_of : List Profile → Map (List ℕ) (Unit {0})
names_of [] = []
names_of (p ∷ ps) = insert p.name tt (names_of ps)

-- What chooseBackend answers: an address, and the registry that it may have read anew.
abbrev pub Chosen : Type 0 → Type 0
Chosen W = Option (List ℕ × List BackendInfo) × W

abbrev pub new_key : List ℕ → List ℕ → List ℕ → List ℕ → Profile
new_key name secret address mode = record {
  name = name;
  secret = secret;
  backend = address;
  carrier_mode = mode;
  limits = [];
}

module _ {W : Type 0} ⦃s : System W⦄ ⦃l : Panel W⦄ where
  abbrev with_registry : Option (List ℕ) → List BackendInfo → W → Chosen W
  with_registry none registry w = (none, w)
  with_registry (some address) registry w = (some (address, registry), w)

  abbrev pub reloaded : Usage → W → Option (List BackendInfo) → Chosen W
  reloaded usage w none = (none, w)
  reloaded usage w (some registry) = with_registry (pick_backend registry usage) registry w

  abbrev pub provisioned : Usage → Bool × W → Chosen W
  provisioned usage (false, w) = (none, w)
  provisioned usage (true, w) = reloaded usage w (s.load_backends w)

  -- chooseBackend
  unfoldable pub choose_backend : List BackendInfo → Usage → W → Chosen W
  unfolding pick_backend
  choose_backend registry usage w = elim (pick_backend registry usage) [
    | some address ↦ (some (address, registry), w)
    | none ↦ provisioned usage (l.provision w)
  ]

  abbrev pub and_then : Profile → Option (List Profile) × W → Option (List Profile) × W
  and_then p (none, w) = (none, w)
  and_then p (some ps, w) = (some (p ∷ ps), w)

  abbrev pub with_secret :
      NewKeyRequest
      → List ℕ
      → (W → Option (List Profile) × W)
      → Option (List ℕ) × W
      → Option (List Profile) × W
  with_secret r address rest (none, w) = (none, w)
  with_secret r address rest (some secret, w) =
      and_then (new_key (l.trim r.name) secret address r.mode) (rest w)

  abbrev pub with_choice :
      NewKeyRequest
      → Usage
      → (List BackendInfo → Usage → W → Option (List Profile) × W)
      → Chosen W
      → Option (List Profile) × W
  with_choice r usage rest (none, w) = (none, w)
  with_choice r usage rest (some (address, registry), w) =
      with_secret r address (rest registry (one_more address usage)) (l.new_secret w)

  -- The second loop of AddKeys, `none` for either of its errors.
  unfoldable pub assign :
      List NewKeyRequest → List BackendInfo → Usage → W → Option (List Profile) × W
  unfolding choose_backend
  assign [] registry usage w = (some [], w)
  assign (r ∷ requests) registry usage w =
      with_choice r usage (assign requests) (choose_backend registry usage w)

  -- The first loop of AddKeys; `taken` has existing and seenInBatch.
  unfoldable pub check_requests :
      List NewKeyRequest → Map (List ℕ) (Unit {0}) → W → Option EditError
  check_requests [] taken w = none
  check_requests (r ∷ requests) taken w =
      if not (matches_name (l.trim r.name))
      then some bad_name
      else if has (l.trim r.name) taken
      then some name_taken
      else if not (valid_carrier r.mode)
      then some bad_carrier
      else check_requests requests (insert (l.trim r.name) tt taken) w

  -- The keys' entries in the bookkeeping, with the same time for all.
  abbrev remembered : List NewKeyRequest → List ℕ → W → Meta → Meta
  remembered [] time w meta = meta
  remembered (r ∷ requests) time w meta = remembered requests time w (
      insert (l.trim r.name)
        (record { label = l.trim r.label; group = l.trim r.group; note = []; created = time }) meta)

  abbrev after_adding :
      List NewKeyRequest → List Profile → Option ApplyError × W → (EditError ⊎ List Profile) × W
  after_adding requests added (some e, w) = (inl (not_applied e), w)
  after_adding requests added (none, w) =
      (inr added, (l.save_meta (remembered requests (l.now w) w (l.load_meta w)) w).1)

  abbrev with_added :
      List ℕ
      → List NewKeyRequest
      → List Profile
      → Option (List Profile) × W
      → (EditError ⊎ List Profile) × W
  with_added path requests ps (none, w) = (inl no_room, w)
  with_added path requests ps (some added, w) =
      after_adding requests added (apply path (ps ++ added) w)

  unfoldable pub add_keys : List ℕ → List NewKeyRequest → W → (EditError ⊎ List Profile) × W
  unfolding assign check_requests choose_backend
  add_keys path requests w =
      if length requests == 0 then (inl no_requests, w) else elim (l.load_profiles w) [
        | none ↦ (inl no_profiles, w)
        | some ps ↦ elim (s.load_backends w) [
          | none ↦ (inl no_backends, w)
          | some registry ↦
              if ltb (s.max_profiles w) (length ps + length requests)
              then (inl too_many_keys, w)
              else elim (check_requests requests (names_of ps) w) [
                | some e ↦ (inl e, w)
                | none ↦ with_added path requests ps (assign requests registry (backend_usage ps) w)
              ]
        ]
      ]
