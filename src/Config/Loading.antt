-- ===== src/Config/Loading.antt =====
-- config.go: the checks of Config.validate and the loop of loadProfiles.
pub mod Accepted
pub mod Validity
pub mod Profiles
use Prim.Native.Nat.{bit_and}
use Prim.Native.String.{String}
use tproxy_server.Base.{
  ℕ, Bool, true, false, not, ◌&&◌, ◌||◌, Option, none, some, List, [], ◌∷◌, ◌++◌, leb, ltb, ◌==◌,
  if◌then◌else◌, length, bytes_equal,
}
use tproxy_server.Base.Int.{ℤ, pos, ltb_ℤ, signed}
use tproxy_server.Base.Table.{Map, text_key, bytes_key, insert, has}
use tproxy_server.Token.{Crypto, codes}
use tproxy_server.Config.{
  LimitsOf, ProfileLimitsOf, ProfileOf, CarrierMode, is_valid, with_default, resolve,
  validate_limits, validate_profile_limits, all_positive,
}
use tproxy_server.Config.Hostname.{validate_hostname}
use tproxy_server.Config.BasePath.{validate_base_path}
use tproxy_server.Config.Capability.{Decoders, decode_secret, derive_capability}
use tproxy_server.Config.Addresses.{Net, validate_loopback_address, validate_public_upstream}

-- The durations in nanoseconds.
pub record Timeouts : Type 0 where
  pub backend_dial : ℤ
  pub long_poll : ℤ
  pub reconnect_grace : ℤ
  pub bootstrap_lifetime : ℤ
  pub read_header : ℤ
  pub idle : ℤ
  pub shutdown : ℤ

abbrev pub durations : Timeouts → List ℤ
durations t =
    t.backend_dial ∷ t.long_poll ∷ t.reconnect_grace ∷ t.bootstrap_lifetime ∷ t.read_header ∷ t.idle
    ∷ t.shutdown ∷ []

-- Config as the file gives it, without its profiles.
pub record Settings : Type 0 where
  pub listen : List ℕ
  pub admin_listen : List ℕ
  pub public_hostname : List ℕ
  pub base_path : List ℕ
  pub public_dir : List ℕ
  pub public_upstream : List ℕ
  pub static_routes : List ℕ
  pub profiles_file : List ℕ
  pub limits : LimitsOf ℤ
  pub timeouts : Timeouts

-- One entry of the profiles file.
pub record ProfileInput : Type 0 where
  pub name : String
  pub backend : String
  pub carrier_mode : CarrierMode
  pub secret : List ℕ
  pub limits : ProfileLimitsOf ℤ

-- What lies outside: `is_directory` and `has_index` are the two calls of os.Stat, `to_lower` is
-- strings.ToLower, and `utf8` gives the bytes of a string.
pub record Outside : Type 0 where
  pub net : Net
  pub crypto : Crypto
  pub decoders : Decoders
  pub is_directory : List ℕ → Bool
  pub has_index : List ℕ → Bool
  pub to_lower : List ℕ → List ℕ
  pub utf8 : String → List ℕ

-- The checks of Config.validate, by the first one that fails.
pub data ConfigError : Type 0 where
  static_routes hostname uppercase base_path listen admin_listen same_listen : ConfigError
  two_publics no_directory no_index upstream no_profiles limits timeouts : ConfigError

abbrev pub is_nil {ℓ} : {A : Type ℓ} → Option A → Bool
is_nil none = true
is_nil (some a) = false

abbrev pub is_empty : List ℕ → Bool
is_empty s = length s == 0

-- Go's `error`: a check that fails with `e`, or what comes after it.
infix 1 unless◌fails◌then◌
abbrev pub unless◌fails◌then◌ {ℓ} : {E : Type ℓ} → Bool → E → Option E → Option E
unless true fails e then next = next
unless false fails e then next = some e

module _ (o : Outside) where
  abbrev pub public_check : Settings → Option ConfigError → Option ConfigError
  public_check c next =
      if is_empty c.public_dir
      then (unless validate_public_upstream o.net c.public_upstream fails upstream then next) else
          unless o.is_directory c.public_dir
      fails no_directory
      then unless o.has_index c.public_dir
      fails no_index
      then next

  unfoldable pub validate : Settings → Option ConfigError
  unfolding validate_hostname validate_base_path validate_loopback_address validate_limits
  validate c =
      unless bytes_equal c.static_routes (codes "exact")
        || bytes_equal c.static_routes (codes "legacy")
      fails static_routes
      then unless is_nil (validate_hostname o.net.is_ip c.public_hostname)
      fails hostname
      then unless bytes_equal c.public_hostname (o.to_lower c.public_hostname)
      fails uppercase
      then unless is_nil (validate_base_path c.base_path)
      fails base_path
      then unless validate_loopback_address o.net c.listen
      fails listen
      then unless validate_loopback_address o.net c.admin_listen
      fails admin_listen
      then unless not (bytes_equal c.listen c.admin_listen)
      fails same_listen
      then unless not_both (is_empty c.public_dir) (is_empty c.public_upstream)
      fails two_publics
      then public_check c (
          unless not (is_empty c.profiles_file)
          fails no_profiles
          then unless validate_limits c.limits
          fails limits
          then unless all_positive (durations c.timeouts)
          fails timeouts
          then none)
    where
      -- `(a == b)` negated, on Booleans
      not_both : Bool → Bool → Bool
      not_both true b = not b
      not_both false b = b

-- The errors of loadProfiles, in the order of its tests.
pub data ProfileError : Type 0 where
  no_file open_permissions not_decoded bad_count bad_name duplicate_name : ProfileError
  bad_backend bad_mode bad_limits bad_secret duplicate_capability : ProfileError

pub data Loaded {ℓ} (A : Type ℓ) : Type ℓ where
  loaded : A → Loaded A
  refused : ProfileError → Loaded A

-- The two sets of the loop, and the profiles so far.
pub record Loading : Type 0 where
  pub names : Map String (Unit {0})
  pub capabilities : Map (List ℕ) (Unit {0})
  pub result : List (ProfileOf ℤ)

-- The file: the permission bits and the entries, `none` where the call or the decoder fails.
pub record ProfilesFile : Type 0 where
  pub permissions : Option ℕ
  pub is_credential : Bool
  pub entries : Option (List ProfileInput)

module _ (o : Outside) (host base_path : List ℕ) (limits : LimitsOf ℤ) where
  abbrev profile_of : ProfileInput → List ℕ → ProfileOf ℤ
  profile_of input capability = record {
    name = input.name;
    backend = input.backend;
    carrier_mode = with_default input.carrier_mode;
    capability = capability;
    limits = resolve input.limits limits;
  }

  abbrev entered : ProfileInput → List ℕ → Loading → Loaded Loading
  entered input capability l =
      if has capability l.capabilities
      then refused duplicate_capability else loaded (record {
        names = insert input.name tt l.names;
        capabilities = insert capability tt l.capabilities;
        result = l.result ++ (profile_of input capability ∷ []);
      })

  abbrev with_secret : ProfileInput → Loading → Option (List ℕ) → Loaded Loading
  with_secret input l none = refused bad_secret
  with_secret input l (some secret) =
      entered input (derive_capability o.crypto host base_path secret) l

  -- One round of the loop.
  unfoldable pub load_profile : ProfileInput → Loading → Loaded Loading
  unfolding resolve
  load_profile input l =
      if (length (o.utf8 input.name) == 0) || ltb 64 (length (o.utf8 input.name))
      then refused bad_name else if has input.name l.names
      then refused duplicate_name else
          if not (validate_loopback_address o.net (o.utf8 input.backend))
      then refused bad_backend else if not (is_valid (with_default input.carrier_mode))
      then refused bad_mode else if not (validate_profile_limits input.limits limits)
      then refused bad_limits else with_secret input l (decode_secret o.decoders input.secret)

  abbrev after : Loaded Loading → (Loading → Loaded Loading) → Loaded Loading
  after (refused e) f = refused e
  after (loaded l) f = f l

  unfoldable pub load_all : List ProfileInput → Loading → Loaded Loading
  unfolding load_profile
  load_all [] l = loaded l
  load_all (input ∷ inputs) l = after (load_profile input l) (load_all inputs)

  abbrev result_of : Loaded Loading → Loaded (List (ProfileOf ℤ))
  result_of (loaded l) = loaded l.result
  result_of (refused e) = refused e

  abbrev empty : Loading
  empty = record { names = []; capabilities = []; result = [] }

  abbrev counted : List ProfileInput → Loaded (List (ProfileOf ℤ))
  counted inputs =
      if (length inputs == 0) || ltb_ℤ limits.max_profiles (pos (length inputs))
      then refused bad_count else result_of (load_all inputs empty)

  -- 0077 and 0033: the bits of group and others, and those of them that write or execute.
  abbrev is_exposed : ProfilesFile → ℕ → Bool
  is_exposed f permissions =
      not (bit_and permissions 63 == 0)
      && not (f.is_credential && (bit_and (bit_and permissions 63) 27 == 0))

  unfoldable pub load_profiles : ProfilesFile → Loaded (List (ProfileOf ℤ))
  unfolding load_all
  load_profiles f = elim f.permissions [
    | none ↦ refused no_file
    | some permissions ↦
        if is_exposed f permissions
        then refused open_permissions else
            elim f.entries [ none ↦ refused not_decoded | some inputs ↦ counted inputs ]
  ]
