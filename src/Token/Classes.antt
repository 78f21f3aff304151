-- ===== src/Token/Classes.antt =====
-- What a new token is taken for, and which hash it is stored under.
use tproxy_server.Base.{
  ℕ, ◌≡◌, ◌≢◌, refl, subst, true, false, Option, none, some, List, ◌∷◌, ◌++◌, length, take, drop,
  length-append, length-take, take-append, drop-append, bytes_equal, arith, Bool-cases, inl, inr,
}
use tproxy_server.Base.Table.{bytes_equal_iff}
use tproxy_server.Token.{
  Crypto, TokenClass, external, bootstrap, session, NewToken, new_token, token_mac, classify_token,
  classify, token_hash, token_context, class_byte,
}

-- RawURLEncoding reads back what it wrote, and a SHA-256 HMAC has 32 bytes.
pub record CryptoLaws (c : Crypto) : Type 0 where
  pub decode_encode : (xs : List ℕ) → c.base64_decode (c.base64_encode xs) ≡ some xs
  pub hmac_length : (key message : List ℕ) → length (c.hmac key message) ≡ 32

same_bytes : (xs : List ℕ) → bytes_equal xs xs ≡ true
same_bytes xs = (bytes_equal_iff xs xs).1 refl

other_bytes : (xs ys : List ℕ) → xs ≢ ys → bytes_equal xs ys ≡ false
other_bytes xs ys n = elim (Bool-cases (bytes_equal xs ys)) [
  | inl e ↦ absurd (n ((bytes_equal_iff xs ys).0 e))
  | inr e ↦ e
]

module _ (c : Crypto) (laws : CryptoLaws c) (key : List ℕ) where
  token_mac-length :
      (kind : TokenClass) (random : List ℕ) → length (token_mac c key kind random) ≡ 16
  unfolding token_mac
  token_mac-length kind random =
      length-take 16 _
        (omega (arith, laws.hmac_length key (token_context ++ (class_byte kind ∷ random))))

  whole-length :
      (kind : TokenClass) (random : List ℕ)
      → length random ≡ 16
      → length (random ++ token_mac c key kind random) ≡ 32
  whole-length kind random h =
      omega
        (arith, h, length-append random (token_mac c key kind random), token_mac-length kind random)

  classify-bootstrap :
      (random mac : List ℕ)
      → length (random ++ mac) ≡ 32
      → length random ≡ 16
      → mac ≡ token_mac c key bootstrap random
      → classify c key (random ++ mac) ≡ bootstrap
  classify-bootstrap random mac w h e = rw (w, front, back, same) refl
    where
      front : take 16 (random ++ mac) ≡ random
      front = subst (λ n. take n (random ++ mac) ≡ random) h (take-append random mac)

      back : drop 16 (random ++ mac) ≡ mac
      back = subst (λ n. drop n (random ++ mac) ≡ mac) h (drop-append random mac)

      same : bytes_equal mac (token_mac c key bootstrap random) ≡ true
      same = (bytes_equal_iff mac (token_mac c key bootstrap random)).1 e

  classify-session :
      (random mac : List ℕ)
      → length (random ++ mac) ≡ 32
      → length random ≡ 16
      → mac ≢ token_mac c key bootstrap random
      → mac ≡ token_mac c key session random
      → classify c key (random ++ mac) ≡ session
  classify-session random mac w h n e = rw (w, front, back, other, same) refl
    where
      front : take 16 (random ++ mac) ≡ random
      front = subst (λ n. take n (random ++ mac) ≡ random) h (take-append random mac)

      back : drop 16 (random ++ mac) ≡ mac
      back = subst (λ n. drop n (random ++ mac) ≡ mac) h (drop-append random mac)

      other : bytes_equal mac (token_mac c key bootstrap random) ≡ false
      other = other_bytes mac (token_mac c key bootstrap random) n

      same : bytes_equal mac (token_mac c key session random) ≡ true
      same = (bytes_equal_iff mac (token_mac c key session random)).1 e

  classify-token_mac :
      (kind : TokenClass) (random : List ℕ)
      → kind ≢ external
      → length random ≡ 16
      → token_mac c key session random ≢ token_mac c key bootstrap random
      → classify c key (random ++ token_mac c key kind random) ≡ kind
  classify-token_mac external random n h d = absurd (n refl)
  classify-token_mac bootstrap random n h d =
      classify-bootstrap random _ (whole-length bootstrap random h) h refl
  classify-token_mac session random n h d =
      classify-session random _ (whole-length session random h) h d refl

  -- A new bootstrap or session token is classified as what it was made for and looked up under
  -- the hash it was made with, where its 16 random bytes do not have the same tag in both
  -- classes.
  pub classify_token-new_token :
      (kind : TokenClass) (random : List ℕ) (t : NewToken)
      → kind ≢ external
      → length random ≡ 16
      → token_mac c key session random ≢ token_mac c key bootstrap random
      → new_token c key kind (some random) ≡ some t
      → (classify_token c key t.token ≡ kind) × (token_hash c t.token ≡ some t.hash)
  unfolding new_token classify_token token_hash
  classify_token-new_token kind random t n h d e = subst Good e (
    rw (laws.decode_encode whole, classify_token) (classify-token_mac kind random n h d),
    rw
        (
          laws.decode_encode whole,
          whole-length kind random h,
          same_bytes (c.base64_encode whole),
          token_hash,
        )
        refl,
  )
    where
      whole : List ℕ
      whole = random ++ token_mac c key kind random

      Good : Option NewToken → Type 0
      Good none = ⊥
      Good (some u) = (classify_token c key u.token ≡ kind) × (token_hash c u.token ≡ some u.hash)
