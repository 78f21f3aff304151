-- ===== src/Config/Capability.antt =====
-- config.go: DeriveCapability, CapabilityString and DecodeSecret.
pub mod Binding
use tproxy_server.Base.{
  ℕ, Bool, true, false, not, ◌&&◌, ◌||◌, Option, none, some, List, [], ◌∷◌, ◌++◌, ◌==◌,
  if◌then◌else◌, length,
}
use tproxy_server.Token.{Crypto, codes}

-- The byte of "\n".
abbrev pub newline : ℕ
newline = 10

abbrev pub capability_context : List ℕ
capability_context = codes "tdesktop-web-proxy-bridge-v1" ++ (newline ∷ [])

abbrev pub capability_context_v2 : List ℕ
capability_context_v2 = codes "tdesktop-web-proxy-bridge-v2" ++ (newline ∷ [])

-- What is written into the MAC.
unfoldable pub capability_message : List ℕ → List ℕ → List ℕ
capability_message host base_path =
    if length base_path == 0
    then capability_context ++ host
    else capability_context_v2 ++ (host ++ (newline ∷ base_path))

module _ (c : Crypto) where
  unfoldable pub derive_capability : List ℕ → List ℕ → List ℕ → List ℕ
  unfolding capability_message
  derive_capability host base_path secret = c.hmac secret (capability_message host base_path)

  unfoldable pub capability_string : List ℕ → List ℕ
  capability_string capability = c.base64_encode capability

-- The decoders of encoding/hex and encoding/base64 (RawURLEncoding and URLEncoding), and
-- strings.TrimSpace.
pub record Decoders : Type 0 where
  pub hex : List ℕ → Option (List ℕ)
  pub raw_url : List ℕ → Option (List ℕ)
  pub url : List ℕ → Option (List ℕ)
  pub trim_space : List ℕ → List ℕ

-- The bytes of a secret: 16, or 17 with 0xdd in front.
abbrev checked_secret : List ℕ → Option (List ℕ)
checked_secret decoded =
    if not (length decoded == 16) && not (length decoded == 17)
    then none
    else if (length decoded == 17) && not (first decoded)
    then none
    else some decoded
  where
    first : List ℕ → Bool
    first [] = false
    first (b ∷ bs) = b == 221

abbrev or_next : Option (List ℕ) → Option (List ℕ) → Option (List ℕ)
or_next (some decoded) next = some decoded
or_next none next = next

-- `none` is an error.
unfoldable pub decode_secret : Decoders → List ℕ → Option (List ℕ)
decode_secret d value =
    elim (if (length trimmed == 32) || (length trimmed == 34)
      then d.hex trimmed
      else or_next (d.raw_url trimmed) (d.url trimmed)) [
        | none ↦ none
        | some decoded ↦ checked_secret decoded
      ]
  where
    trimmed : List ℕ
    trimmed = d.trim_space value
