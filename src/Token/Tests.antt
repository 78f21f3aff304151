-- ===== src/Token/Tests.antt =====
-- A session token, with stand-ins for base64 and the hashes.
use tproxy_server.Base.{ℕ, ◌≡◌, ◌≢◌, refl, ap, List, [], ◌∷◌, ◌++◌, some, total, arith}
use tproxy_server.Token.{
  Crypto, NewToken, bootstrap, session, new_token, token_mac, class_byte, classify_token,
  token_hash,
}
use tproxy_server.Token.Classes.{CryptoLaws, classify_token-new_token}

abbrev sixteen : ℕ → List ℕ
sixteen n = n ∷ n ∷ n ∷ n ∷ n ∷ n ∷ n ∷ n ∷ n ∷ n ∷ n ∷ n ∷ n ∷ n ∷ n ∷ n ∷ []

abbrev thirty_two : ℕ → List ℕ
thirty_two n = n ∷ n ∷ n ∷ n ∷ n ∷ n ∷ n ∷ n ∷ n ∷ n ∷ n ∷ n ∷ n ∷ n ∷ n ∷ n ∷ sixteen n

abbrev plain : Crypto
plain = record {
  base64_encode = λ xs. xs;
  base64_decode = λ xs. some xs;
  sha256 = λ xs. thirty_two (total (λ x. x) xs);
  hmac = λ key xs. thirty_two (total (λ x. x) xs);
}

plain-CryptoLaws : CryptoLaws plain
plain-CryptoLaws = record { decode_encode = λ xs. refl; hmac_length = λ key xs. refl }

abbrev drawn : List ℕ
drawn = sixteen 7

abbrev token : NewToken
token = record {
  token = drawn ++ token_mac plain [] session drawn;
  hash = thirty_two (total (λ x. x) (drawn ++ token_mac plain [] session drawn));
}

abbrev first_of : List ℕ → ℕ
first_of [] = 0
first_of (n ∷ ns) = n

macs_differ : token_mac plain [] session drawn ≢ token_mac plain [] bootstrap drawn
unfolding token_mac class_byte
macs_differ e = omega (arith, ap first_of e)

classify_token-new_token_example :
    (classify_token plain [] token.token ≡ session)
    × (token_hash plain token.token ≡ some token.hash)
unfolding new_token
classify_token-new_token_example =
    classify_token-new_token plain plain-CryptoLaws [] session drawn token (λ e. cc) refl
      macs_differ refl
