-- ===== src/Token.antt =====
-- internal/session/token.go and tokenHash of manager.go: the credentials of the relay.
pub mod Classes
pub mod Tests
use Prim.Native.Char.{code}
use Prim.Native.String.{String}
use tproxy_server.Base.{
  ℕ, not, ◌||◌, Option, none, some, List, [], ◌∷◌, ◌++◌, ◌==◌, if◌then◌else◌, length, take, drop,
  bytes_equal,
}

-- The byte of a class is its position.
pub data TokenClass : Type 0 where
  external bootstrap session : TokenClass

unfoldable pub class_byte : TokenClass → ℕ
class_byte external = 0
class_byte bootstrap = 1
class_byte session = 2

-- encoding/base64 (RawURLEncoding) and crypto, over byte lists. `hmac key message` is the HMAC
-- with SHA-256.
pub record Crypto : Type 0 where
  pub base64_encode : List ℕ → List ℕ
  pub base64_decode : List ℕ → Option (List ℕ)
  pub sha256 : List ℕ → List ℕ
  pub hmac : List ℕ → List ℕ → List ℕ

abbrev pub codes : String → List ℕ
codes String.[] = []
codes (String.◌∷◌ c s) = code c ∷ codes s

abbrev pub token_context : List ℕ
token_context = codes "tproxy-server-token-v1" ++ (0 ∷ [])

pub record NewToken : Type 0 where
  pub token : List ℕ
  pub hash : List ℕ

module _ (c : Crypto) (key : List ℕ) where
  unfoldable pub token_mac : TokenClass → List ℕ → List ℕ
  unfolding class_byte
  token_mac kind random = take 16 (c.hmac key (token_context ++ (class_byte kind ∷ random)))

  -- `random` is what the random source gave: 16 bytes, or a failure.
  unfoldable pub new_token : TokenClass → Option (List ℕ) → Option NewToken
  new_token kind none = none
  new_token kind (some random) = some (record {
    token = c.base64_encode (random ++ token_mac kind random);
    hash = c.sha256 (random ++ token_mac kind random);
  })

  abbrev pub classify : List ℕ → TokenClass
  classify decoded =
      if not (length decoded == 32)
      then external
      else if bytes_equal (drop 16 decoded) (token_mac bootstrap (take 16 decoded))
      then bootstrap
      else if bytes_equal (drop 16 decoded) (token_mac session (take 16 decoded))
      then session
      else external

  unfoldable pub classify_token : List ℕ → TokenClass
  classify_token token = elim (c.base64_decode token) [
    | none ↦ external
    | some decoded ↦ classify decoded
  ]

module _ (c : Crypto) where
  -- Only the canonical spelling of 32 bytes has a hash; `none` is ErrAuthentication.
  unfoldable pub token_hash : List ℕ → Option (List ℕ)
  token_hash token = elim (c.base64_decode token) [
    | none ↦ none
    | some decoded ↦
        if not (length decoded == 32) || not (bytes_equal (c.base64_encode decoded) token)
        then none
        else some (c.sha256 decoded)
  ]
