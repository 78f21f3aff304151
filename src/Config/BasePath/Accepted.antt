-- ===== src/Config/BasePath/Accepted.antt =====
-- config.go: ValidateBasePath accepts exactly the canonical paths, and no two of them have the same
-- prefix on the wire.
use tproxy_server.Base.{
  ℕ, ◌≤◌, ◌≡◌, ◌↔◌, refl, sym, ap, subst, ◌∙◌, true, false, ◌&&◌, ◌||◌, none, List, [], ◌∷◌, arith,
  ltb, ◌==◌, length, All, Bool-cases, inl, inr,
}
use tproxy_server.Base.Text.{
  contains, starts, ends, ends-append, ends-cons, split, join, IsPart, join-split, split-join,
}
use tproxy_server.Config.BasePath.{
  slash, max_base_path_length, is_alphanumeric, is_joiner, later_bytes, segment_bytes,
  check_segments, validate_base_path,
}

-- A letter or a digit, and after it letters, digits, "-" and "_".
abbrev pub IsSegment : List ℕ → Type 0
IsSegment [] = ⊥
IsSegment (c ∷ cs) =
    (is_alphanumeric c ≡ true) × All (λ d. (is_alphanumeric d || is_joiner d) ≡ true) cs

-- Segments joined by "/", of 128 bytes at most, or nothing.
pub record IsPath (path : List ℕ) : Type 0 where
  pub segments : List (List ℕ)
  pub spelled : path ≡ join slash segments
  pub all_segments : All IsSegment segments
  pub fits : length path ≤ max_base_path_length

later_bytes-All :
    (cs : List ℕ) → later_bytes cs ≡ true → All (λ c. (is_alphanumeric c || is_joiner c) ≡ true) cs
unfolding later_bytes
later_bytes-All [] e = tt
later_bytes-All (c ∷ cs) e = elim (Bool-cases (is_alphanumeric c || is_joiner c)) [
  | inl x ↦ (x, later_bytes-All cs (rw x at e))
  | inr x ↦ cc (rw x at e)
]

All-later_bytes :
    (cs : List ℕ) → All (λ c. (is_alphanumeric c || is_joiner c) ≡ true) cs → later_bytes cs ≡ true
unfolding later_bytes
All-later_bytes [] h = refl
All-later_bytes (c ∷ cs) h = rw (h.0) (All-later_bytes cs h.1)

check_segments-IsSegment :
    (segments : List (List ℕ)) → check_segments segments ≡ none → All IsSegment segments
unfolding check_segments segment_bytes
check_segments-IsSegment [] e = tt
check_segments-IsSegment ([] ∷ segments) e = cc
check_segments-IsSegment ((c ∷ cs) ∷ segments) e =
    elim (Bool-cases (is_alphanumeric c && later_bytes cs)) [
      | inl x ↦ (
        (ground (arith, x), later_bytes-All cs (ground (arith, x))),
        check_segments-IsSegment segments (ground (arith, x, e)),
      )
      | inr x ↦ absurd (ground (arith, x, e))
    ]

later_lem :
    (c : ℕ) (cs : List ℕ)
    → (c == slash) ≡ false
    → All (λ d. (is_alphanumeric d || is_joiner d) ≡ true) cs
    → (ends slash (c ∷ cs) ≡ false) × IsPart slash (c ∷ cs)
unfolding ends contains
later_lem c [] n h = (n, rw n refl)
later_lem c (d ∷ cs) n h =
    let later = later_lem d cs (ground (arith, h.0)) h.1 in (later.0, rw n (later.1))

-- A segment has no slash and passes the loop.
segment_lem :
    (c : ℕ) (cs : List ℕ)
    → IsSegment (c ∷ cs)
    → (segment_bytes (c ∷ cs) ≡ true)
      × ((c == slash) ≡ false)
      × (ends slash (c ∷ cs) ≡ false)
      × IsPart slash (c ∷ cs)
unfolding segment_bytes
segment_lem c cs v =
    let no_slash : (c == slash) ≡ false = ground (arith, v.0) in
    let later = later_lem c cs no_slash v.1 in
    (rw (v.0) (All-later_bytes cs v.1), no_slash, later.0, later.1)

IsSegment-check_segments :
    (segments : List (List ℕ)) → All IsSegment segments → check_segments segments ≡ none
unfolding check_segments
IsSegment-check_segments [] h = refl
IsSegment-check_segments ([] ∷ segments) h = absurd h.0
IsSegment-check_segments ((c ∷ cs) ∷ segments) h =
    ground (arith, (segment_lem c cs h.0).0, IsSegment-check_segments segments h.1)

parts : (segments : List (List ℕ)) → All IsSegment segments → All (IsPart slash) segments
parts [] h = tt
parts ([] ∷ segments) h = absurd h.0
parts ((c ∷ cs) ∷ segments) h = ((segment_lem c cs h.0).3, parts segments h.1)

-- The joined segments: a byte at least, and no slash at either end.
joined_ends :
    (p : List ℕ) (segments : List (List ℕ))
    → All IsSegment (p ∷ segments)
    → (1 ≤ length (join slash (p ∷ segments)))
      × (starts slash (join slash (p ∷ segments)) ≡ false)
      × (ends slash (join slash (p ∷ segments)) ≡ false)
unfolding join starts
joined_ends [] segments h = absurd h.0
joined_ends (c ∷ cs) [] h = let lem = segment_lem c cs h.0 in (omega arith, lem.1, lem.2)
joined_ends (c ∷ cs) (q ∷ segments) h =
    let later = joined_ends q segments h.1 in
    (
      omega arith,
      (segment_lem c cs h.0).1,
      ends-append slash (c ∷ cs) (slash ∷ join slash (q ∷ segments)) (omega arith)
          ∙ ends-cons slash slash (join slash (q ∷ segments)) later.0
          ∙ later.2,
    )

module _ (path : List ℕ) where
  accepted-IsPath : validate_base_path path ≡ none → IsPath path
  unfolding validate_base_path join
  accepted-IsPath e = elim (Bool-cases (length path == 0)) [
    | inl x ↦ record {
      segments = [];
      spelled = no_bytes path x;
      all_segments = tt;
      fits = ground (arith, x);
    }
    | inr x ↦ elim (Bool-cases (ltb max_base_path_length (length path))) [
      | inl y ↦ cc (rw (x, y) at e)
      | inr y ↦ elim (Bool-cases (starts slash path || ends slash path)) [
        | inl z ↦ cc (rw (x, y, z) at e)
        | inr z ↦ record {
          segments = split slash path;
          spelled = sym (join-split slash path);
          all_segments = check_segments-IsSegment (split slash path) (rw (x, y, z) at e);
          fits = ground (arith, y);
        }
      ]
    ]
  ]
    where
      no_bytes : (s : List ℕ) → (length s == 0) ≡ true → s ≡ []
      no_bytes [] x = refl
      no_bytes (c ∷ s) x = absurd (ground (arith, x))

  path_passes :
      (segments : List (List ℕ))
      → All IsSegment segments
      → path ≡ join slash segments
      → length path ≤ max_base_path_length
      → validate_base_path path ≡ none
  unfolding validate_base_path join
  path_passes [] a e f = rw e refl
  path_passes (p ∷ segments) a e f =
      let found = joined_ends p segments a in
      let some_byte : 1 ≤ length path = subst (λ s. 1 ≤ length s) (sym e) found.0 in
      let first : starts slash path ≡ false = ap (starts slash) e ∙ found.1 in
      let last : ends slash path ≡ false = ap (ends slash) e ∙ found.2 in
      let checked =
        ap check_segments
          (ap (split slash) e ∙ split-join slash p segments (parts (p ∷ segments) a))
        ∙ IsSegment-check_segments (p ∷ segments) a in
      ground (arith, some_byte, first, last, checked, f)

  -- ValidateBasePath accepts exactly the paths of 128 bytes at most whose segments, joined by
  -- slashes, each start with a letter or a digit and go on with letters, digits, dashes and
  -- underscores; the empty path has no segment.
  pub validate_base_path_iff : (validate_base_path path ≡ none) ↔ IsPath path
  validate_base_path_iff =
      (accepted-IsPath, λ v. path_passes v.segments v.all_segments v.spelled v.fits)
