-- ===== src/Config/Capability/Binding.antt =====
-- config.go: DeriveCapability binds a capability to the host and to the base path.
use tproxy_server.Base.{
  ℕ, ◌≡◌, ◌≢◌, refl, sym, ap, ◌∙◌, false, List, [], ◌∷◌, ◌++◌, arith, ◌==◌, length, get_elem?, none,
  suc, some,
}
use tproxy_server.Base.Text.{contains, IsPart}
use tproxy_server.Config.Capability.{
  newline, capability_context, capability_context_v2, capability_message,
}

-- Equal texts have equal parts before and after the first newline.
first_line :
    (xs ys us vs : List ℕ)
    → IsPart newline xs
    → IsPart newline us
    → xs ++ (newline ∷ ys) ≡ us ++ (newline ∷ vs)
    → (xs ≡ us) × (ys ≡ vs)
unfolding contains
first_line [] ys [] vs h k e = (refl, cc e)
first_line [] ys (u ∷ us) vs h k e = cc
first_line (x ∷ xs) ys [] vs h k e = cc
first_line (x ∷ xs) ys (u ∷ us) vs h k e =
    let tails = first_line xs ys us vs (ground (arith, h)) (ground (arith, k)) (cc e) in
    (cc (e, tails.0), tails.1)

pub append_inj : (xs ys zs : List ℕ) → xs ++ ys ≡ xs ++ zs → ys ≡ zs
append_inj [] ys zs e = e
append_inj (x ∷ xs) ys zs e = append_inj xs ys zs (cc e)

-- A base path makes a message of the second version.
message_v2 :
    (host : List ℕ) (q : ℕ) (p : List ℕ)
    → capability_message host (q ∷ p) ≡ capability_context_v2 ++ (host ++ (newline ∷ q ∷ p))
unfolding capability_message
message_v2 host q p = rw (never (length p)) refl
  where
    never : (n : ℕ) → (suc n == 0) ≡ false
    never n = ground arith

-- The byte in which the versions differ.
abbrev version : List ℕ → ℕ
version s = elim (get_elem? s 27) [ none ↦ 0 | some c ↦ c ]

versions :
    (host host' : List ℕ) (q : ℕ) (p : List ℕ)
    → capability_message host [] ≢ capability_message host' (q ∷ p)
unfolding capability_message
versions host host' q p e =
    let bytes : 49 ≡ 50 = ap version (e ∙ message_v2 host' q p) in omega (arith, bytes)

-- Two pairs of a host and a base path with the same message are the same pair: a capability minted
-- for one prefix is for no other and not for the root. No host has a newline.
pub capability_message_inj :
    (host host' base_path base_path' : List ℕ)
    → IsPart newline host
    → IsPart newline host'
    → capability_message host base_path ≡ capability_message host' base_path'
    → (host ≡ host') × (base_path ≡ base_path')
unfolding capability_message
capability_message_inj host host' [] [] h k e = (append_inj capability_context host host' e, refl)
capability_message_inj host host' [] (q ∷ p') h k e = absurd (versions host host' q p' e)
capability_message_inj host host' (q ∷ p) [] h k e = absurd (versions host' host q p (sym e))
capability_message_inj host host' (q ∷ p) (q' ∷ p') h k e =
    first_line host (q ∷ p) host' (q' ∷ p') h k (
      append_inj capability_context_v2 _ _ (sym (message_v2 host q p) ∙ e ∙ message_v2 host' q' p'))
