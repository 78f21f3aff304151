-- ===== src/Config/Loading/Accepted.antt =====
-- config.go: what Config.validate accepts, and what it makes of the capabilities.
use tproxy_server.Base.{
  ℕ, ◌≡◌, ◌≢◌, refl, sym, subst, Bool, true, false, not, Option, none, some, List, [], ◌∷◌, ◌++◌,
  arith, if◌then◌else◌, All, Bool-cases, inl, inr, bytes_equal,
}
use tproxy_server.Base.Table.{bytes_equal_iff}
use tproxy_server.Base.Text.{contains, join, IsPart}
use tproxy_server.Config.{validate_limits, all_positive}
use tproxy_server.Config.Hostname.{dot, is_host_byte}
use tproxy_server.Config.Hostname.Accepted.{IsHostname, IsLabel, validate_hostname_iff}
use tproxy_server.Config.BasePath.Accepted.{IsPath, validate_base_path_iff}
use tproxy_server.Config.Addresses.{validate_loopback_address}
use tproxy_server.Config.Capability.{newline, capability_message, derive_capability}
use tproxy_server.Config.Capability.Binding.{capability_message_inj}
use tproxy_server.Config.Loading.{
  Outside, Settings, ConfigError, validate, unless◌fails◌then◌, public_check, is_nil, is_empty,
  durations,
}

-- Settings that the relay starts with.
pub record IsAccepted (o : Outside) (c : Settings) : Type 0 where
  pub named : IsHostname o.net.is_ip c.public_hostname
  pub placed : IsPath c.base_path
  pub listens : validate_loopback_address o.net c.listen ≡ true
  pub administers : validate_loopback_address o.net c.admin_listen ≡ true
  pub apart : c.listen ≢ c.admin_listen
  pub limited : validate_limits c.limits ≡ true
  pub timed : all_positive (durations c.timeouts) ≡ true

module _ {E : Type 0} where
  unless-none :
      (b : Bool) (e : E) (next : Option E)
      → (unless b fails e then next) ≡ none
      → (b ≡ true) × (next ≡ none)
  unless-none true e next h = (refl, h)
  unless-none false e next h = cc

  is_nil-none : (o : Option E) → is_nil o ≡ true → o ≡ none
  is_nil-none none h = refl
  is_nil-none (some e) h = cc

public_check-none :
    (o : Outside) (c : Settings) (next : Option ConfigError)
    → public_check o c next ≡ none
    → next ≡ none
public_check-none o c next e = elim (Bool-cases (is_empty c.public_dir)) [
  | inl x ↦ (unless-none _ _ next (rw x at e)).1
  | inr x ↦ elim (Bool-cases (o.is_directory c.public_dir)) [
    | inl y ↦ (unless-none _ _ next (rw (x, y) at e)).1
    | inr y ↦ cc (rw (x, y) at e)
  ]
]

differ : (xs ys : List ℕ) → not (bytes_equal xs ys) ≡ true → xs ≢ ys
differ xs ys h e = cc ((bytes_equal_iff xs ys).1 e, h)

pub validate-IsAccepted : (o : Outside) (c : Settings) → validate o c ≡ none → IsAccepted o c
unfolding validate
validate-IsAccepted o c e =
    let routes = unless-none _ _ _ e in
    let named = unless-none _ _ _ routes.1 in
    let lower = unless-none _ _ _ named.1 in
    let placed = unless-none _ _ _ lower.1 in
    let listens = unless-none _ _ _ placed.1 in
    let administers = unless-none _ _ _ listens.1 in
    let apart = unless-none _ _ _ administers.1 in
    let publics = unless-none _ _ _ apart.1 in
    let profiles = unless-none _ _ _ (public_check-none o c _ publics.1) in
    let limits = unless-none _ _ _ profiles.1 in
    let timeouts = unless-none _ _ _ limits.1 in
    record {
      named = (validate_hostname_iff o.net.is_ip c.public_hostname).0 (is_nil-none _ named.0);
      placed = (validate_base_path_iff c.base_path).0 (is_nil-none _ placed.0);
      listens = listens.0;
      administers = administers.0;
      apart = differ c.listen c.admin_listen apart.0;
      limited = limits.0;
      timed = timeouts.0;
    }

label-no_newline : (l : List ℕ) → All (λ c. is_host_byte c ≡ true) l → IsPart newline l
unfolding contains
label-no_newline [] h = refl
label-no_newline (c ∷ cs) h = ground (arith, h.0, label-no_newline cs h.1)

append-IsPart : (xs ys : List ℕ) → IsPart newline xs → IsPart newline ys → IsPart newline (xs ++ ys)
unfolding contains
append-IsPart [] ys h k = k
append-IsPart (x ∷ xs) ys h k = ground (arith, h, append-IsPart xs ys)

-- A host name has no newline.
name-no_newline : (labels : List (List ℕ)) → All IsLabel labels → IsPart newline (join dot labels)
unfolding join contains
name-no_newline [] h = refl
name-no_newline (l ∷ []) h = label-no_newline l h.0.bytes
name-no_newline (l ∷ m ∷ labels) h =
    append-IsPart l (dot ∷ join dot (m ∷ labels)) (label-no_newline l h.0.bytes)
      (name-no_newline (m ∷ labels) h.1)

host-no_newline : (o : Outside) (c : Settings) → IsAccepted o c → IsPart newline c.public_hostname
host-no_newline o c v =
    subst (IsPart newline) (sym v.named.spelled) (name-no_newline v.named.labels v.named.all_labels)

-- Of two accepted configurations, the messages whose MAC is their capability are equal only if the
-- host name and the base path are.
accepted_messages :
    (o : Outside) (c c' : Settings)
    → validate o c ≡ none
    → validate o c' ≡ none
    → capability_message c.public_hostname c.base_path
      ≡ capability_message c'.public_hostname c'.base_path
    → (c.public_hostname ≡ c'.public_hostname) × (c.base_path ≡ c'.base_path)
accepted_messages o c c' h k e =
    capability_message_inj c.public_hostname c'.public_hostname c.base_path c'.base_path
      (host-no_newline o c (validate-IsAccepted o c h))
      (host-no_newline o c' (validate-IsAccepted o c' k)) e

-- Where Config.validate accepts both of two configurations and HMAC does not collide, under one
-- secret, on their two messages, the secret has the same capability in both only if the host
-- name and the base path are the same: a capability minted for one prefix is for no other and
-- not for the root.
pub accepted_capabilities :
    (o : Outside) (c c' : Settings) (secret : List ℕ)
    → validate o c ≡ none
    → validate o c' ≡ none
    → (o.crypto.hmac secret (capability_message c.public_hostname c.base_path)
          ≡ o.crypto.hmac secret (capability_message c'.public_hostname c'.base_path)
        → capability_message c.public_hostname c.base_path
          ≡ capability_message c'.public_hostname c'.base_path)
    → derive_capability o.crypto c.public_hostname c.base_path secret
      ≡ derive_capability o.crypto c'.public_hostname c'.base_path secret
    → (c.public_hostname ≡ c'.public_hostname) × (c.base_path ≡ c'.base_path)
unfolding derive_capability
accepted_capabilities o c c' secret h k apart e = accepted_messages o c c' h k (apart e)
