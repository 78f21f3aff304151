-- ===== src/Config/Hostname/Accepted.antt =====
-- config.go: ValidateHostname accepts exactly the lowercase DNS names of two labels or more.
use tproxy_server.Base.{
  ℕ, ◌≤◌, ◌≡◌, ◌↔◌, refl, sym, ap, subst, ◌∙◌, Bool, true, false, not, ◌||◌, none, List, [], ◌∷◌,
  ◌++◌, arith, ltb, ◌==◌, length, length-append, All, Bool-cases, inl, inr,
}
use tproxy_server.Base.Text.{
  contains, contains_any, starts, ends, ends-append, ends-cons, split, join, IsPart, join-split,
  split-several, split-join,
}
use tproxy_server.Config.Hostname.{
  dot, dash, url_bytes, is_host_byte, is_ascii, host_bytes, fits_label, check_labels,
  validate_hostname,
}

-- One label: 1 to 63 lowercase letters, digits and dashes, with no dash at either end.
pub record IsLabel (label : List ℕ) : Type 0 where
  pub some_byte : 1 ≤ length label
  pub few_bytes : length label ≤ 63
  pub bytes : All (λ c. is_host_byte c ≡ true) label
  pub first : starts dash label ≡ false
  pub last : ends dash label ≡ false

-- A host name: two labels or more, joined by dots, 253 bytes at most and no IP address.
pub record IsHostname (is_ip : List ℕ → Bool) (host : List ℕ) : Type 0 where
  pub labels : List (List ℕ)
  pub spelled : host ≡ join dot labels
  pub several : 2 ≤ length labels
  pub all_labels : All IsLabel labels
  pub fits : length host ≤ 253
  pub no_address : is_ip host ≡ false

host_bytes-All : (cs : List ℕ) → host_bytes cs ≡ true → All (λ c. is_host_byte c ≡ true) cs
unfolding host_bytes
host_bytes-All [] e = tt
host_bytes-All (c ∷ cs) e = elim (Bool-cases (is_host_byte c)) [
  | inl x ↦ (x, host_bytes-All cs (rw x at e))
  | inr x ↦ cc (rw x at e)
]

All-host_bytes : (cs : List ℕ) → All (λ c. is_host_byte c ≡ true) cs → host_bytes cs ≡ true
unfolding host_bytes
All-host_bytes [] h = refl
All-host_bytes (c ∷ cs) h = rw (h.0) (All-host_bytes cs h.1)

check_labels-IsLabel : (labels : List (List ℕ)) → check_labels labels ≡ none → All IsLabel labels
unfolding check_labels
check_labels-IsLabel [] e = tt
check_labels-IsLabel (label ∷ labels) e = elim (Bool-cases (fits_label label)) [
  | inl x ↦ elim (Bool-cases (host_bytes label)) [
    | inl y ↦ (
      record {
        some_byte = ground (arith, x);
        few_bytes = ground (arith, x);
        bytes = host_bytes-All label y;
        first = ground (arith, x);
        last = ground (arith, x);
      },
      check_labels-IsLabel labels (rw (x, y) at e),
    )
    | inr y ↦ cc (rw (x, y) at e)
  ]
  | inr x ↦ cc (rw x at e)
]

IsLabel-check_labels : (labels : List (List ℕ)) → All IsLabel labels → check_labels labels ≡ none
unfolding check_labels
IsLabel-check_labels [] h = refl
IsLabel-check_labels (label ∷ labels) h =
    let fitting : fits_label label ≡ true =
      ground (arith, h.0.some_byte, h.0.few_bytes, h.0.first, h.0.last) in
    rw (fitting, All-host_bytes label h.0.bytes) (IsLabel-check_labels labels h.1)

-- A byte of a name: one of a label, or a dot.
abbrev is_name_byte : ℕ → Bool
is_name_byte c = is_host_byte c || (c == dot)

label_bytes :
    (label : List ℕ)
    → All (λ c. is_host_byte c ≡ true) label
    → All (λ c. is_name_byte c ≡ true) label
label_bytes [] h = tt
label_bytes (c ∷ cs) h = (rw (h.0) refl, label_bytes cs h.1)

append_bytes :
    (xs ys : List ℕ)
    → All (λ c. is_name_byte c ≡ true) xs
    → All (λ c. is_name_byte c ≡ true) ys
    → All (λ c. is_name_byte c ≡ true) (xs ++ ys)
append_bytes [] ys h k = k
append_bytes (c ∷ xs) ys h k = (h.0, append_bytes xs ys h.1 k)

name_bytes :
    (labels : List (List ℕ))
    → All IsLabel labels
    → All (λ c. is_name_byte c ≡ true) (join dot labels)
unfolding join
name_bytes [] h = tt
name_bytes (l ∷ []) h = label_bytes l h.0.bytes
name_bytes (l ∷ m ∷ labels) h =
    append_bytes l (dot ∷ join dot (m ∷ labels)) (label_bytes l h.0.bytes)
      (refl, name_bytes (m ∷ labels) h.1)

label-IsPart : (label : List ℕ) → All (λ c. is_host_byte c ≡ true) label → IsPart dot label
unfolding contains
label-IsPart [] h = refl
label-IsPart (c ∷ cs) h = ground (arith, h.0, label-IsPart cs h.1)

parts : (labels : List (List ℕ)) → All IsLabel labels → All (IsPart dot) labels
parts [] h = tt
parts (l ∷ labels) h = (label-IsPart l h.0.bytes, parts labels h.1)

-- Such a name is ASCII and has no byte of a URL.
plain :
    (cs : List ℕ)
    → All (λ c. is_name_byte c ≡ true) cs
    → (is_ascii cs ≡ true) × (contains_any url_bytes cs ≡ false)
unfolding is_ascii contains_any contains
plain [] h = (refl, refl)
plain (c ∷ cs) h = (ground (arith, h.0, (plain cs h.1).0), ground (arith, h.0, (plain cs h.1).1))

contains_middle : (xs ys : List ℕ) → contains dot (xs ++ (dot ∷ ys)) ≡ true
unfolding contains
contains_middle [] ys = refl
contains_middle (c ∷ xs) ys = ground (arith, contains_middle xs ys)

ends-label : (cs : List ℕ) → All (λ c. is_host_byte c ≡ true) cs → ends dot cs ≡ false
unfolding ends
ends-label [] k = refl
ends-label (c ∷ []) k = ground (arith, k.0)
ends-label (c ∷ d ∷ cs) k = ends-label (d ∷ cs) k.1

-- A joined name has a byte and does not end in a dot.
name_end :
    (l : List ℕ) (labels : List (List ℕ))
    → All IsLabel (l ∷ labels)
    → (1 ≤ length (join dot (l ∷ labels))) × (ends dot (join dot (l ∷ labels)) ≡ false)
unfolding join
name_end l [] h = (h.0.some_byte, ends-label l h.0.bytes)
name_end l (m ∷ labels) h =
    let later = name_end m labels h.1 in
    (
      omega (arith, length-append l (dot ∷ join dot (m ∷ labels))),
      ends-append dot l (dot ∷ join dot (m ∷ labels)) (omega arith)
          ∙ ends-cons dot dot (join dot (m ∷ labels)) later.0
          ∙ later.1,
    )

has_dot :
    (l : List ℕ) (labels : List (List ℕ))
    → 1 ≤ length labels
    → contains dot (join dot (l ∷ labels)) ≡ true
unfolding join
has_dot l [] n = absurd (omega (arith, n))
has_dot l (m ∷ labels) n = contains_middle l (join dot (m ∷ labels))

module _ (is_ip : List ℕ → Bool) (host : List ℕ) where
  accepted-IsHostname : validate_hostname is_ip host ≡ none → IsHostname is_ip host
  unfolding validate_hostname
  accepted-IsHostname e = elim (Bool-cases dns) [
    | inl x ↦ cc (rw x at e)
    | inr x ↦ elim (Bool-cases (is_ip host || not (contains dot host))) [
      | inl y ↦ cc (rw (x, y) at e)
      | inr y ↦ elim (Bool-cases (is_ascii host)) [
        | inl z ↦ record {
          labels = split dot host;
          spelled = sym (join-split dot host);
          several = split-several dot host (ground (arith, y));
          all_labels = check_labels-IsLabel (split dot host) (rw (x, y, z) at e);
          fits = ground (arith, x);
          no_address = ground (arith, y);
        }
        | inr z ↦ cc (rw (x, y, z) at e)
      ]
    ]
  ]
    where
      dns : Bool
      dns =
          (length host == 0)
          || (ltb 253 (length host) || (ends dot host || contains_any url_bytes host))

  name_passes :
      (l : List ℕ) (labels : List (List ℕ))
      → 1 ≤ length labels
      → All IsLabel (l ∷ labels)
      → host ≡ join dot (l ∷ labels)
      → length host ≤ 253
      → is_ip host ≡ false
      → validate_hostname is_ip host ≡ none
  unfolding validate_hostname
  name_passes l labels n a e f i =
      let some_byte : 1 ≤ length host = subst (λ s. 1 ≤ length s) (sym e) (name_end l labels a).0 in
      let open_end : ends dot host ≡ false = ap (ends dot) e ∙ (name_end l labels a).1 in
      let clean =
        plain host (subst (All (λ c. is_name_byte c ≡ true)) (sym e) (name_bytes (l ∷ labels) a)) in
      let dotted : contains dot host ≡ true = ap (contains dot) e ∙ has_dot l labels n in
      let apart : split dot host ≡ l ∷ labels =
        ap (split dot) e ∙ split-join dot l labels (parts (l ∷ labels) a) in
      let checked = ap check_labels apart ∙ IsLabel-check_labels (l ∷ labels) a in
      ground (arith, some_byte, open_end, clean.0, clean.1, dotted, checked, f, i)

  -- ValidateHostname accepts exactly the names of two labels or more that are joined by dots,
  -- have 253 bytes at most and are no IP address, where a label has 1 to 63 lowercase letters,
  -- digits and dashes and no dash at either end.
  pub validate_hostname_iff : (validate_hostname is_ip host ≡ none) ↔ IsHostname is_ip host
  validate_hostname_iff =
      (accepted-IsHostname, λ v. passes v.labels v.several v.all_labels v.spelled v)
    where
      passes :
          (labels : List (List ℕ))
          → 2 ≤ length labels
          → All IsLabel labels
          → host ≡ join dot labels
          → IsHostname is_ip host
          → validate_hostname is_ip host ≡ none
      passes [] n a e v = absurd (omega (arith, n))
      passes (l ∷ labels) n a e v = name_passes l labels (omega (arith, n)) a e v.fits v.no_address
