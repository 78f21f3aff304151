-- ===== src/Config/Loading/Profiles.antt =====
-- config.go: what the loop of loadProfiles accepts.
use Prim.Native.String.{String}
use tproxy_server.Base.{
  ℕ, ◌+◌, ◌≤◌, ◌≡◌, ◌≢◌, subst, true, false, not, ◌||◌, Option, none, some, List, [], ◌∷◌, ◌++◌,
  arith, ltb, ◌==◌, length, length-append, on_if, All, Bool-cases, Option-cases, inl, inr,
}
use tproxy_server.Base.Int.{ℤ, pos, ◌≤ℤ◌, ltb_ℤ, signed}
use tproxy_server.Base.Sets.{has-put, has-kept, other_key}
use tproxy_server.Base.Table.{Map, text_key, bytes_key, insert, has}
use tproxy_server.Config.{
  LimitsOf, ProfileOf, is_valid, with_default, validate_limits, validate_profile_limits,
}
use tproxy_server.Config.Addresses.{validate_loopback_address}
use tproxy_server.Config.Capability.{decode_secret, derive_capability}
use tproxy_server.Config.Loading.{
  Outside, ProfileInput, ProfilesFile, Loading, Loaded, loaded, refused, load_profile, load_all,
  load_profiles, entered, with_secret, profile_of, after, result_of, counted, is_exposed, empty,
}
use tproxy_server.Config.Loading.Validity.{IsWithin, resolve-IsWithin}

-- The name and the capability of a profile are not those of another.
abbrev Apart : ProfileOf ℤ → ProfileOf ℤ → Type 0
Apart p q = (p.name ≢ q.name) × (p.capability ≢ q.capability)

-- No two profiles share a name or a capability.
abbrev pub Distinct : List (ProfileOf ℤ) → Type 0
Distinct [] = Unit {0}
Distinct (p ∷ ps) = All (Apart p) ps × Distinct ps

Distinct-append :
    (ps : List (ProfileOf ℤ)) (q : ProfileOf ℤ)
    → Distinct ps
    → All (λ p. Apart p q) ps
    → Distinct (ps ++ (q ∷ []))
Distinct-append [] q d h = (tt, tt)
Distinct-append (p ∷ ps) q d h = (grown ps d.0, Distinct-append ps q d.1 h.1)
  where
    grown : (qs : List (ProfileOf ℤ)) → All (Apart p) qs → All (Apart p) (qs ++ (q ∷ []))
    grown [] x = (h.0, tt)
    grown (r ∷ qs) x = (x.0, grown qs x.1)

All-append :
    (P : ProfileOf ℤ → Type 0) (ps : List (ProfileOf ℤ)) (q : ProfileOf ℤ)
    → All P ps
    → P q
    → All P (ps ++ (q ∷ []))
All-append P [] q h x = (x, tt)
All-append P (p ∷ ps) q h x = (h.0, All-append P ps q h.1 x)

All-step :
    (P Q : ProfileOf ℤ → Type 0) (ps : List (ProfileOf ℤ))
    → ((p : ProfileOf ℤ) → P p → Q p)
    → All P ps
    → All Q ps
All-step P Q [] f h = tt
All-step P Q (p ∷ ps) f h = (f p h.0, All-step P Q ps f h.1)

-- The predicate holds of what is loaded, if anything is.
abbrev IfLoaded {ℓ} : {A : Type ℓ} → (A → Type 0) → Loaded A → Type 0
IfLoaded P (loaded a) = P a
IfLoaded P (refused e) = Unit {0}

module _ (o : Outside) (host base_path : List ℕ) (limits : LimitsOf ℤ) where
  -- A profile that the relay can run with.
  pub record IsProfile (p : ProfileOf ℤ) : Type 0 where
    pub named : (1 ≤ length (o.utf8 p.name)) × (length (o.utf8 p.name) ≤ 64)
    pub local : validate_loopback_address o.net (o.utf8 p.backend) ≡ true
    pub mode : is_valid p.carrier_mode ≡ true
    pub within : IsWithin p.limits limits

  -- The two sets of the loop hold what the profiles so far have.
  record IsLoading (l : Loading) : Type 0 where
    names_held : All (λ p. has p.name l.names ≡ true) l.result
    capabilities_held : All (λ p. has p.capability l.capabilities ≡ true) l.result
    distinct : Distinct l.result
    each : All IsProfile l.result

  abbrev Longer : Loading → Loading → Type 0
  Longer l l' = IsLoading l' × (length l'.result ≡ length l.result + 1)

  entered-Longer :
      (input : ProfileInput) (capability : List ℕ) (l : Loading)
      → has input.name l.names ≡ false
      → IsProfile (profile_of o host base_path limits input capability)
      → IsLoading l
      → IfLoaded (Longer l) (entered o host base_path limits input capability l)
  entered-Longer input capability l new p v =
      on_if (IfLoaded (Longer l)) (has capability l.capabilities) _ _ (λ x. tt)
        (λ x. (
          record {
            names_held =
                All-append (λ q. has q.name names ≡ true) l.result added
                  (All-step (λ q. has q.name l.names ≡ true) (λ q. has q.name names ≡ true) l.result
                    (λ q y. has-kept q.name input.name l.names y) v.names_held)
                  (has-put input.name l.names);
            capabilities_held =
                All-append (λ q. has q.capability capabilities ≡ true) l.result added
                  (All-step (λ q. has q.capability l.capabilities ≡ true)
                    (λ q. has q.capability capabilities ≡ true) l.result
                    (λ q y. has-kept q.capability capability l.capabilities y) v.capabilities_held)
                  (has-put capability l.capabilities);
            distinct =
                Distinct-append l.result added v.distinct
                  (apart x l.result v.names_held v.capabilities_held);
            each = All-append IsProfile l.result added v.each p;
          },
          length-append l.result (added ∷ []),
        ))
    where
      added : ProfileOf ℤ
      added = profile_of o host base_path limits input capability

      names : Map String (Unit {0})
      names = insert input.name tt l.names

      capabilities : Map (List ℕ) (Unit {0})
      capabilities = insert capability tt l.capabilities

      apart :
          has capability l.capabilities ≡ false
          → (ps : List (ProfileOf ℤ)) → All (λ p. has p.name l.names ≡ true) ps
          → All (λ p. has p.capability l.capabilities ≡ true) ps
          → All (λ p. Apart p added) ps
      apart x [] h k = tt
      apart x (q ∷ ps) h k = (
        (
          other_key q.name input.name l.names h.0 new,
          other_key q.capability capability l.capabilities k.0 x,
        ),
        apart x ps h.1 k.1,
      )

  load_profile-Longer :
      (input : ProfileInput) (l : Loading)
      → validate_limits limits ≡ true
      → IsLoading l
      → IfLoaded (Longer l) (load_profile o host base_path limits input l)
  unfolding load_profile
  load_profile-Longer input l g v =
      on_if (IfLoaded (Longer l))
        ((length (o.utf8 input.name) == 0) || ltb 64 (length (o.utf8 input.name))) _ _ (λ a. tt)
        (λ a.
          on_if (IfLoaded (Longer l)) (has input.name l.names) _ _ (λ b. tt)
            (λ b.
              on_if (IfLoaded (Longer l))
                (not (validate_loopback_address o.net (o.utf8 input.backend))) _ _ (λ c. tt)
                (λ c.
                  on_if (IfLoaded (Longer l)) (not (is_valid (with_default input.carrier_mode))) _ _
                    (λ d. tt)
                    (λ d.
                      on_if (IfLoaded (Longer l))
                        (not (validate_profile_limits input.limits limits)) _ _ (λ f. tt)
                        (λ f. secret (decode_secret o.decoders input.secret) b (λ capability.
                          record {
                            named = (ground (arith, a), ground (arith, a));
                            local = ground (arith, c);
                            mode = ground (arith, d);
                            within = resolve-IsWithin input.limits limits g (ground (arith, f));
                          }))))))
    where
      secret :
          (s : Option (List ℕ))
          → has input.name l.names ≡ false
          → ((capability : List ℕ)
              → IsProfile (profile_of o host base_path limits input capability))
          → IfLoaded (Longer l) (with_secret o host base_path limits input l s)
      secret none b p = tt
      secret (some bytes) b p =
          entered-Longer input (derive_capability o.crypto host base_path bytes) l b
            (p (derive_capability o.crypto host base_path bytes)) v

  load_all-IsLoading :
      (inputs : List ProfileInput) (l : Loading)
      → validate_limits limits ≡ true
      → IsLoading l
      → IfLoaded
          (λ l'. IsLoading l' × (length l'.result ≡ length l.result + length inputs))
          (load_all o host base_path limits inputs l)
  unfolding load_all
  load_all-IsLoading [] l g v = (v, omega arith)
  load_all-IsLoading (input ∷ inputs) l g v =
      go (λ l' w. load_all-IsLoading inputs l' g w) (load_profile o host base_path limits input l)
        (load_profile-Longer input l g v)
    where
      further :
          (l' : Loading) (n : ℕ) (r : Loaded Loading)
          → length l'.result ≡ n + 1
          → IfLoaded (λ k. IsLoading k × (length k.result ≡ length l'.result + length inputs)) r
          → IfLoaded (λ k. IsLoading k × (length k.result ≡ n + length (input ∷ inputs))) r
      further l' n (refused e) h x = tt
      further l' n (loaded k) h x = (x.0, omega (arith, h, x.1))

      go :
          ((l' : Loading)
            → IsLoading l'
            → IfLoaded
                (λ k. IsLoading k × (length k.result ≡ length l'.result + length inputs))
                (load_all o host base_path limits inputs l'))
          → (r : Loaded Loading) → IfLoaded (Longer l) r
          → IfLoaded
              (λ l'. IsLoading l' × (length l'.result ≡ length l.result + length (input ∷ inputs)))
              (after o host base_path limits r (load_all o host base_path limits inputs))
      go rest (refused e) x = tt
      go rest (loaded l') x =
          further l' (length l.result) (load_all o host base_path limits inputs l') x.1
            (rest l' x.0)

  -- A good file: one profile for each of its entries.
  pub record IsLoaded (inputs : List ProfileInput) (profiles : List (ProfileOf ℤ)) : Type 0 where
    pub counted : length profiles ≡ length inputs
    pub some_profile : 1 ≤ length profiles
    pub few_profiles : pos (length profiles) ≤ℤ limits.max_profiles
    pub distinct : Distinct profiles
    pub each : All IsProfile profiles

  counted-IsLoaded :
      (inputs : List ProfileInput)
      → validate_limits limits ≡ true
      → IfLoaded (IsLoaded inputs) (counted o host base_path limits inputs)
  counted-IsLoaded inputs g =
      on_if (IfLoaded (IsLoaded inputs))
        ((length inputs == 0) || ltb_ℤ limits.max_profiles (pos (length inputs))) _ _ (λ x. tt)
        (λ x. finished x (load_all o host base_path limits inputs (empty o host base_path limits)) (
          load_all-IsLoading inputs (empty o host base_path limits) g
            (record { names_held = tt; capabilities_held = tt; distinct = tt; each = tt })))
    where
      finished :
          ((length inputs == 0) || ltb_ℤ limits.max_profiles (pos (length inputs))) ≡ false
          → (r : Loaded Loading)
          → IfLoaded (λ l. IsLoading l × (length l.result ≡ 0 + length inputs)) r
          → IfLoaded (IsLoaded inputs) (result_of o host base_path limits r)
      finished x (refused e) v = tt
      finished x (loaded l) v = record {
        counted = omega (arith, v.1);
        some_profile = ground (arith, x, v.1);
        few_profiles = ground (arith, x, v.1);
        distinct = v.0.distinct;
        each = v.0.each;
      }

  -- Where the global limits are validated and a profiles file is loaded, there is one profile
  -- for each entry, their number is within max_profiles and not 0, no two share a name or a
  -- capability, and each has a name of 1 to 64 bytes, a loopback backend, a carrier mode and
  -- limits that are positive and within the global ones.
  pub load_profiles-IsLoaded :
      (file : ProfilesFile) (inputs : List ProfileInput) (profiles : List (ProfileOf ℤ))
      → validate_limits limits ≡ true
      → file.entries ≡ some inputs
      → load_profiles o host base_path limits file ≡ loaded profiles
      → IsLoaded inputs profiles
  unfolding load_profiles
  load_profiles-IsLoaded file inputs profiles g e f = elim (Option-cases file.permissions) [
    | inl x ↦ cc (rw x at f)
    | inr (permissions, x) ↦
        elim (Bool-cases (is_exposed o host base_path limits file permissions)) [
          | inl y ↦ cc (rw (x, y) at f)
          | inr y ↦
              subst (IfLoaded (IsLoaded inputs)) (rw (x, y, e) at f) (counted-IsLoaded inputs g)
        ]
  ]
