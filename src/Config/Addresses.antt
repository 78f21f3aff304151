-- ===== src/Config/Addresses.antt =====
-- config.go: validateLoopbackAddress and validatePublicUpstream.
use tproxy_server.Base.{
  ℕ, Bool, false, not, ◌||◌, Option, none, some, List, ltb, ◌==◌, if◌then◌else◌, length,
  bytes_equal,
}
use tproxy_server.Token.{codes}

-- What net/url makes of an address.
pub record ParsedUrl : Type 0 where
  pub scheme : List ℕ
  pub host : List ℕ
  pub path : List ℕ
  pub raw_query : List ℕ
  pub fragment : List ℕ
  pub has_user : Bool

-- net.SplitHostPort (host and port), `ip != nil && ip.IsLoopback()` of net.ParseIP, strconv.Atoi
-- (`none` also for a negative number, which no port is) and url.Parse.
pub record Net : Type 0 where
  pub split_host_port : List ℕ → Option (List ℕ × List ℕ)
  pub is_ip : List ℕ → Bool
  pub is_loopback : List ℕ → Bool
  pub atoi : List ℕ → Option ℕ
  pub parse_url : List ℕ → Option ParsedUrl

module _ (n : Net) where
  abbrev port_fits : Option ℕ → Bool
  port_fits none = false
  port_fits (some value) = not (ltb value 1 || ltb 65535 value)

  -- Whether the error is nil.
  unfoldable pub validate_loopback_address : List ℕ → Bool
  validate_loopback_address address = elim (n.split_host_port address) [
    | none ↦ false
    | some (host, port) ↦ if not (n.is_loopback host) then false else port_fits (n.atoi port)
  ]

  unfoldable pub validate_public_upstream : List ℕ → Bool
  unfolding validate_loopback_address
  validate_public_upstream raw = elim (n.parse_url raw) [
    | none ↦ false
    | some parsed ↦
        if not (bytes_equal parsed.scheme (codes "http"))
        then false
        else if parsed.has_user
            || (not (length parsed.path == 0)
                || (not (length parsed.raw_query == 0) || not (length parsed.fragment == 0)))
        then false
        else validate_loopback_address parsed.host
  ]
