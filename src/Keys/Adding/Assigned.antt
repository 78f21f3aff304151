-- ===== src/Keys/Adding/Assigned.antt =====
-- keys-panel/store.go: how AddKeys spreads its keys over the backends.
use tproxy_server.Base.{
  ℕ, suc, ◌+◌, ◌≤◌, ◌<◌, ◌≡◌, refl, subst, Bool, true, false, Option, none, some, List, [], ◌∷◌,
  ◌++◌, arith, ltb, length, Bool-cases, inl, inr, bytes_equal,
}
use tproxy_server.Base.Table.{bytes_equal_iff, bytes_key, lookup}
use tproxy_server.Keys.{
  Profile, BackendInfo, Usage, used, one_more, pick_backend, backend_usage, usage_from,
  max_secrets_per_backend,
}
use tproxy_server.Keys.Checked.{on_address, used-one_more}
use tproxy_server.Keys.Applying.{System}
use tproxy_server.Keys.Editing.{Panel}
use tproxy_server.Keys.Adding.{
  NewKeyRequest, Chosen, choose_backend, reloaded, provisioned, with_registry, assign, with_choice,
  with_secret, and_then, new_key,
}

usage_from-on_address :
    (address : List ℕ) (ps : List Profile) (usage : Usage)
    → used address (usage_from ps usage) ≡ on_address address ps + used address usage
usage_from-on_address address [] usage = omega arith
usage_from-on_address address (p ∷ ps) usage = omega (
  arith,
  usage_from-on_address address ps (one_more p.backend usage),
  used-one_more address p.backend usage,
)

pick_backend-room :
    (registry : List BackendInfo) (usage : Usage) (address : List ℕ)
    → pick_backend registry usage ≡ some address
    → used address usage < max_secrets_per_backend
unfolding pick_backend
pick_backend-room [] usage address e = cc
pick_backend-room (b ∷ registry) usage address e =
    elim (Bool-cases (ltb (used b.address usage) max_secrets_per_backend)) [
      | inl x ↦
          let same : b.address ≡ address = cc (rw x at e) in
          subst (λ a. used a usage < max_secrets_per_backend) same (ground (arith, x))
      | inr x ↦ pick_backend-room registry usage address (rw x at e)
    ]

abbrev IsFew : Usage → Type 0
IsFew usage = (address : List ℕ) → used address usage ≤ max_secrets_per_backend

one_more-IsFew :
    (address : List ℕ) (usage : Usage)
    → used address usage < max_secrets_per_backend
    → IsFew usage
    → IsFew (one_more address usage)
one_more-IsFew address usage room few a = elim (Bool-cases (bytes_equal address a)) [
  | inl x ↦
      let same : address ≡ a = (bytes_equal_iff address a).0 x in
      let here : used a usage < max_secrets_per_backend =
        subst (λ b. used b usage < max_secrets_per_backend) same room in
      omega (arith, here, rw x at (used-one_more a address usage))
  | inr x ↦ omega (arith, few a, rw x at (used-one_more a address usage))
]

on_address-append :
    (address : List ℕ) (ps qs : List Profile)
    → on_address address (ps ++ qs) ≡ on_address address ps + on_address address qs
on_address-append address [] qs = omega arith
on_address-append address (p ∷ ps) qs = omega (arith, on_address-append address ps qs)

module _ {W : Type 0} ⦃s : System W⦄ ⦃l : Panel W⦄ where
  -- The chosen backend has room for one more key.
  abbrev HasPlace : Usage → Chosen W → Type 0
  HasPlace usage (none, w) = Unit {0}
  HasPlace usage (some (address, registry), w) = used address usage < max_secrets_per_backend

  registry-HasPlace :
      (registry : List BackendInfo) (usage : Usage) (w : W) (o : Option (List ℕ))
      → pick_backend registry usage ≡ o
      → HasPlace usage (with_registry o registry w)
  registry-HasPlace registry usage w none e = tt
  registry-HasPlace registry usage w (some address) e = pick_backend-room registry usage address e

  choose_backend-HasPlace :
      (registry : List BackendInfo) (usage : Usage) (w : W)
      → HasPlace usage (choose_backend registry usage w)
  unfolding choose_backend
  choose_backend-HasPlace registry usage w = go (pick_backend registry usage) refl
    where
      again : (v : W) (o : Option (List BackendInfo)) → HasPlace usage (reloaded usage v o)
      again v none = tt
      again v (some reread) = registry-HasPlace reread usage v (pick_backend reread usage) refl

      more : (r : Bool × W) → HasPlace usage (provisioned usage r)
      more (false, v) = tt
      more (true, v) = again v (s.load_backends v)

      go :
          (o : Option (List ℕ))
          → pick_backend registry usage ≡ o
          → HasPlace usage (elim o [
            | some address ↦ (some (address, registry), w)
            | none ↦ provisioned usage (l.provision w)
          ])
      go none e = more (l.provision w)
      go (some address) e = pick_backend-room registry usage address e

  -- The new keys fit beside those that are counted.
  abbrev Fits : Usage → ℕ → Option (List Profile) × W → Type 0
  Fits usage n (none, w) = Unit {0}
  Fits usage n (some added, w) =
      (length added ≡ n)
      × ((address : List ℕ)
          → on_address address added + used address usage ≤ max_secrets_per_backend)

  assign-Fits :
      (requests : List NewKeyRequest) (registry : List BackendInfo) (usage : Usage) (w : W)
      → IsFew usage
      → Fits usage (length requests) (assign requests registry usage w)
  unfolding assign
  assign-Fits [] registry usage w few = (refl, λ address. omega (arith, few address))
  assign-Fits (r ∷ requests) registry usage w few =
      chosen (λ reread more v k. assign-Fits requests reread more v k)
        (choose_backend registry usage w) (choose_backend-HasPlace registry usage w)
    where
      added :
          (address secret : List ℕ) (o : Option (List Profile) × W)
          → Fits (one_more address usage) (length requests) o
          → Fits usage
              (suc (length requests))
              (and_then (new_key (l.trim r.name) secret address r.mode) o)
      added address secret (none, v) h = tt
      added address secret (some ps, v) h =
          (omega (arith, h.0), λ a. omega (arith, h.1 a, used-one_more a address usage))

      secret :
          (address : List ℕ) (f : W → Option (List Profile) × W) (o : Option (List ℕ) × W)
          → ((v : W) → Fits (one_more address usage) (length requests) (f v))
          → Fits usage (suc (length requests)) (with_secret r address f o)
      secret address f (none, v) h = tt
      secret address f (some bytes, v) h = added address bytes (f v) (h v)

      chosen :
          ((reread : List BackendInfo) (more : Usage) (v : W)
            → IsFew more
            → Fits more (length requests) (assign requests reread more v))
          → (c : Chosen W) → HasPlace usage c
          → Fits usage (suc (length requests)) (with_choice r usage (assign requests) c)
      chosen rest (none, v) h = tt
      chosen rest (some (address, reread), v) h =
          secret address (assign requests reread (one_more address usage)) (l.new_secret v)
            (λ x. rest reread (one_more address usage) x (one_more-IsFew address usage h few))

  -- Where no backend has more than 16 keys of the file, the keys that AddKeys assigns are one
  -- for each request, and no backend has more than 16 with them, backends that are provisioned
  -- on the way included.
  pub assign-few :
      (requests : List NewKeyRequest) (registry : List BackendInfo) (ps added : List Profile)
      (w w' : W)
      → ((address : List ℕ) → on_address address ps ≤ max_secrets_per_backend)
      → assign requests registry (backend_usage ps) w ≡ (some added, w')
      → (length added ≡ length requests)
        × ((address : List ℕ) → on_address address (ps ++ added) ≤ max_secrets_per_backend)
  unfolding backend_usage lookup
  assign-few requests registry ps added w w' few e =
      let fits = subst (Fits (backend_usage ps) (length requests)) e (
        assign-Fits requests registry (backend_usage ps) w
          (λ address. omega (arith, few address, usage_from-on_address address ps []))) in
      (
        fits.0,
        λ address. omega (
          arith,
          fits.1 address,
          usage_from-on_address address ps [],
          on_address-append address ps added,
        ),
      )
