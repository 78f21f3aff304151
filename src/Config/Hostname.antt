-- ===== src/Config/Hostname.antt =====
-- config.go: ValidateHostname, and the names that it accepts.
pub mod Accepted
use tproxy_server.Base.{
  ℕ, ◌+◌, Bool, true, false, not, ◌&&◌, ◌||◌, Option, none, some, List, [], ◌∷◌, ltb, leb, ◌==◌,
  if◌then◌else◌, length,
}
use tproxy_server.Base.Text.{contains, contains_any, starts, ends, split}

-- The five errors of ValidateHostname, in the order of its tests.
pub data HostnameError : Type 0 where
  not_dns not_a_name not_ascii bad_label not_lowercase : HostnameError

-- The bytes of ".", "-" and ":/@?#[]".
abbrev pub dot : ℕ
dot = 46

abbrev pub dash : ℕ
dash = 45

abbrev pub url_bytes : List ℕ
url_bytes = 58 ∷ 47 ∷ 64 ∷ 63 ∷ 35 ∷ 91 ∷ 93 ∷ []

abbrev pub is_digit : ℕ → Bool
is_digit c = leb 48 c && leb c 57

abbrev pub is_lower : ℕ → Bool
is_lower c = leb 97 c && leb c 122

abbrev pub is_host_byte : ℕ → Bool
is_host_byte c = is_lower c || (is_digit c || (c == dash))

-- A rune above 127 shows in its bytes.
unfoldable pub is_ascii : List ℕ → Bool
is_ascii [] = true
is_ascii (c ∷ cs) = leb c 127 && is_ascii cs

unfoldable pub host_bytes : List ℕ → Bool
host_bytes [] = true
host_bytes (c ∷ cs) = is_host_byte c && host_bytes cs

abbrev pub fits_label : List ℕ → Bool
fits_label label =
    not ((length label == 0) || (ltb 63 (length label) || (starts dash label || ends dash label)))

unfoldable pub check_labels : List (List ℕ) → Option HostnameError
unfolding host_bytes
check_labels [] = none
check_labels (label ∷ labels) =
    if not (fits_label label)
    then some bad_label
    else if not (host_bytes label)
    then some not_lowercase
    else check_labels labels

-- `is_ip host` is `net.ParseIP(host) != nil`.
unfoldable pub validate_hostname : (List ℕ → Bool) → List ℕ → Option HostnameError
unfolding check_labels is_ascii
validate_hostname is_ip host =
    if (length host == 0)
      || (ltb 253 (length host) || (ends dot host || contains_any url_bytes host))
    then some not_dns
    else if is_ip host || not (contains dot host)
    then some not_a_name
    else if not (is_ascii host)
    then some not_ascii
    else check_labels (split dot host)
