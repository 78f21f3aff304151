-- ===== src/Keys/Secrets/Lines.antt =====
-- keys-panel/store.go: what upsertSecretArgs keeps of a file.
use tproxy_server.Base.{
  ℕ, ◌≡◌, refl, sym, ap, ◌∙◌, Bool, true, false, ◌||◌, ◌&&◌, ◌==◌, List, [], ◌∷◌, ◌++◌, arith, All,
  Bool-cases, inl, inr, bytes_equal,
}
use tproxy_server.Base.Text.{contains, split, join, IsPart, split-IsPart, split-join}
use tproxy_server.Base.Table.{bytes_equal_iff}
use tproxy_server.Keys.Secrets.{
  newline, header, plain, spread, has_prefix, is_owned, kept_lines, upsert_secret_args,
}

append_nil : (xs : List (List ℕ)) → xs ++ [] ≡ xs
append_nil [] = refl
append_nil (x ∷ xs) = ap (λ l. x ∷ l) (append_nil xs)

append_assoc : (xs ys zs : List ℕ) → (xs ++ ys) ++ zs ≡ xs ++ (ys ++ zs)
append_assoc [] ys zs = refl
append_assoc (x ∷ xs) ys zs = ap (λ l. x ∷ l) (append_assoc xs ys zs)

-- The three lines that the panel writes.
abbrev pub written : List ℕ → List (List ℕ)
written joined_args = header ∷ (plain ++ joined_args) ∷ (spread ++ joined_args) ∷ []

prefix_append : (p s : List ℕ) → has_prefix p (p ++ s) ≡ true
unfolding has_prefix
prefix_append [] s = refl
prefix_append (c ∷ p) s = ground (arith, prefix_append p s)

kept-append : (xs ys : List (List ℕ)) → kept_lines (xs ++ ys) ≡ kept_lines xs ++ kept_lines ys
unfolding kept_lines
kept-append [] ys = refl
kept-append (x ∷ xs) ys = elim (Bool-cases (is_owned x)) [
  | inl e ↦ rw e (kept-append xs ys)
  | inr e ↦ rw e (ap (λ l. x ∷ l) (kept-append xs ys))
]

kept-kept : (xs : List (List ℕ)) → kept_lines (kept_lines xs) ≡ kept_lines xs
unfolding kept_lines
kept-kept [] = refl
kept-kept (x ∷ xs) = elim (Bool-cases (is_owned x)) [
  | inl e ↦ rw e (kept-kept xs)
  | inr e ↦ rw (e, e) (ap (λ l. x ∷ l) (kept-kept xs))
]

owned_plain : (line : List ℕ) → has_prefix plain line ≡ true → is_owned line ≡ true
unfolding is_owned
owned_plain line h =
    or_true (bytes_equal line []) (bytes_equal line header) (has_prefix plain line)
      (has_prefix spread line) h
  where
    or_true : (a b c d : Bool) → c ≡ true → (a || (b || (c || d))) ≡ true
    or_true a b c d e = ground (arith, e)

owned_spread : (line : List ℕ) → has_prefix spread line ≡ true → is_owned line ≡ true
unfolding is_owned
owned_spread line h =
    or_true (bytes_equal line []) (bytes_equal line header) (has_prefix plain line)
      (has_prefix spread line) h
  where
    or_true : (a b c d : Bool) → d ≡ true → (a || (b || (c || d))) ≡ true
    or_true a b c d e = ground (arith, e)

owned_header : is_owned header ≡ true
unfolding is_owned bytes_equal
owned_header = refl

all_owned :
    (x y z : List ℕ)
    → is_owned x ≡ true
    → is_owned y ≡ true
    → is_owned z ≡ true
    → kept_lines (x ∷ y ∷ z ∷ []) ≡ []
unfolding kept_lines
all_owned x y z h k l = rw (h, k, l) refl

kept-written : (joined_args : List ℕ) → kept_lines (written joined_args) ≡ []
kept-written joined_args =
    all_owned header (plain ++ joined_args) (spread ++ joined_args) owned_header
      (owned_plain (plain ++ joined_args) (prefix_append plain joined_args))
      (owned_spread (spread ++ joined_args) (prefix_append spread joined_args))

kept-IsPart : (xs : List (List ℕ)) → All (IsPart newline) xs → All (IsPart newline) (kept_lines xs)
unfolding kept_lines
kept-IsPart [] h = tt
kept-IsPart (x ∷ xs) h = elim (Bool-cases (is_owned x)) [
  | inl e ↦ rw e (kept-IsPart xs h.1)
  | inr e ↦ rw e (h.0, kept-IsPart xs h.1)
]

join-last :
    (p : List ℕ) (ps : List (List ℕ))
    → join newline (p ∷ (ps ++ ([] ∷ []))) ≡ join newline (p ∷ ps) ++ (newline ∷ [])
unfolding join
join-last p [] = refl
join-last p (q ∷ ps) =
    ap (λ l. p ++ (newline ∷ l)) (join-last q ps)
    ∙ sym (append_assoc p (newline ∷ join newline (q ∷ ps)) (newline ∷ []))

All-append :
    (xs ys : List (List ℕ))
    → All (IsPart newline) xs
    → All (IsPart newline) ys
    → All (IsPart newline) (xs ++ ys)
All-append [] ys h k = k
All-append (x ∷ xs) ys h k = (h.0, All-append xs ys h.1 k)

-- A text that ends in a newline is split into its lines and an empty one.
split-lines :
    (p : List ℕ) (ps : List (List ℕ))
    → All (IsPart newline) (p ∷ ps)
    → split newline (join newline (p ∷ ps) ++ (newline ∷ [])) ≡ (p ∷ ps) ++ ([] ∷ [])
unfolding contains
split-lines p ps h =
    ap (split newline) (sym (join-last p ps))
    ∙ split-join newline p (ps ++ ([] ∷ [])) (h.0, All-append ps ([] ∷ []) h.1 (refl, tt))

written-IsPart :
    (joined_args : List ℕ) → IsPart newline joined_args → All (IsPart newline) (written joined_args)
unfolding contains
written-IsPart joined_args h = (refl, (h, (h, tt)))

lines_of :
    (joined_args : List ℕ) (kept : List (List ℕ))
    → IsPart newline joined_args
    → All (IsPart newline) kept
    → split newline (join newline (kept ++ written joined_args) ++ (newline ∷ []))
      ≡ (kept ++ written joined_args) ++ ([] ∷ [])
lines_of joined_args [] h k =
    split-lines header ((plain ++ joined_args) ∷ (spread ++ joined_args) ∷ [])
      (written-IsPart joined_args h)
lines_of joined_args (p ∷ ps) h k =
    split-lines p (ps ++ written joined_args)
      (k.0, All-append ps (written joined_args) k.1 (written-IsPart joined_args h))

kept-upsert :
    (existing joined_args : List ℕ)
    → IsPart newline joined_args
    → kept_lines (split newline (upsert_secret_args existing joined_args))
      ≡ kept_lines (split newline existing)
unfolding upsert_secret_args bytes_equal
kept-upsert existing joined_args h =
    let kept = kept_lines (split newline existing) in
    ap kept_lines (
      lines_of joined_args kept h
        (kept-IsPart (split newline existing) (split-IsPart newline existing)))
    ∙ kept-append (kept ++ written joined_args) ([] ∷ [])
    ∙ append_nil (kept_lines (kept ++ written joined_args))
    ∙ kept-append kept (written joined_args)
    ∙ ap (λ l. kept_lines kept ++ l) (kept-written joined_args)
    ∙ append_nil (kept_lines kept)
    ∙ kept-kept (split newline existing)

-- A line that the panel takes for its own, or a blank one.
pub data IsOurs (line : List ℕ) : Type 0 where
  blank : line ≡ [] → IsOurs line
  title : line ≡ header → IsOurs line
  plain_arguments : (rest : List ℕ) → line ≡ plain ++ rest → IsOurs line
  spread_arguments : (rest : List ℕ) → line ≡ spread ++ rest → IsOurs line

-- The lines of others, in their order.
pub data Keeps : List (List ℕ) → List (List ℕ) → Type 0 where
  no_line : Keeps [] []
  keep :
      (line : List ℕ) (lines kept : List (List ℕ))
      → ¬ IsOurs line
      → Keeps lines kept
      → Keeps (line ∷ lines) (line ∷ kept)
  drop :
      (line : List ℕ) (lines kept : List (List ℕ))
      → IsOurs line
      → Keeps lines kept
      → Keeps (line ∷ lines) kept

-- The lines of a file after a call: those of others as they were, then the three of the panel.
pub record IsUpdate (existing joined_args result : List ℕ) : Type 0 where
  pub others : List (List ℕ)
  pub keeps : Keeps (split newline existing) others
  pub lines : split newline result ≡ (others ++ written joined_args) ++ ([] ∷ [])

prefix_rest : (p s : List ℕ) → has_prefix p s ≡ true → (rest : List ℕ) × (s ≡ p ++ rest)
unfolding has_prefix
prefix_rest [] s h = (s, refl)
prefix_rest (c ∷ p) [] h = cc
prefix_rest (c ∷ p) (x ∷ s) h =
    let parts = both (x == c) (has_prefix p s) h in
    let tail = prefix_rest p s parts.1 in (tail.0, cc (same x c parts.0, tail.1))
  where
    both : (a b : Bool) → (a && b) ≡ true → (a ≡ true) × (b ≡ true)
    both a b e = (ground (arith, e), ground (arith, e))

    same : (a b : ℕ) → (a == b) ≡ true → a ≡ b
    same a b e = ground (arith, e)

owned-IsOurs : (line : List ℕ) → is_owned line ≡ true → IsOurs line
unfolding is_owned
owned-IsOurs line h = elim (Bool-cases (bytes_equal line [])) [
  | inl e ↦ blank ((bytes_equal_iff line []).0 e)
  | inr e ↦ elim (Bool-cases (bytes_equal line header)) [
    | inl x ↦ title ((bytes_equal_iff line header).0 x)
    | inr x ↦ elim (Bool-cases (has_prefix plain line)) [
      | inl y ↦ let r = prefix_rest plain line y in plain_arguments r.0 r.1
      | inr y ↦ let r = prefix_rest spread line (rw (e, x, y) at h) in spread_arguments r.0 r.1
    ]
  ]
]

foreign : (line : List ℕ) → is_owned line ≡ false → ¬ IsOurs line
unfolding is_owned bytes_equal
foreign line h (blank e) = cc (rw e at h)
foreign line h (title e) = cc (ap is_owned e, owned_header, h)
foreign line h (plain_arguments rest e) =
    cc (ap is_owned e, owned_plain (plain ++ rest) (prefix_append plain rest), h)
foreign line h (spread_arguments rest e) =
    cc (ap is_owned e, owned_spread (spread ++ rest) (prefix_append spread rest), h)

kept-Keeps : (lines : List (List ℕ)) → Keeps lines (kept_lines lines)
unfolding kept_lines
kept-Keeps [] = no_line
kept-Keeps (line ∷ lines) = elim (Bool-cases (is_owned line)) [
  | inl e ↦ rw e (drop line lines (kept_lines lines) (owned-IsOurs line e) (kept-Keeps lines))
  | inr e ↦ rw e (keep line lines (kept_lines lines) (foreign line e) (kept-Keeps lines))
]

-- Where the arguments have no newline, the file that upsertSecretArgs makes has the lines of
-- others, which are neither blank nor the panel's header nor begin with one of its two names,
-- all of them as they were and in their order, then the header and the two lines with the
-- arguments; and a later call has the result that it would have had without the earlier one.
pub upsert-upsert :
    (existing joined_args joined_args' : List ℕ)
    → IsPart newline joined_args
    → IsUpdate existing joined_args (upsert_secret_args existing joined_args)
      × (upsert_secret_args (upsert_secret_args existing joined_args) joined_args'
          ≡ upsert_secret_args existing joined_args')
unfolding upsert_secret_args
upsert-upsert existing joined_args joined_args' h = (
  record {
    others = kept_lines (split newline existing);
    keeps = kept-Keeps (split newline existing);
    lines =
        lines_of joined_args (kept_lines (split newline existing)) h
          (kept-IsPart (split newline existing) (split-IsPart newline existing));
  },
  ap (λ l. join newline (l ++ written joined_args') ++ (newline ∷ []))
      (kept-upsert existing joined_args h),
)
