-- ===== src/Config/BasePath.antt =====
-- config.go: ValidateBasePath and Base, the prefix that the relay's endpoints sit under.
pub mod Accepted
use tproxy_server.Base.{
  ℕ, Bool, true, false, not, ◌&&◌, ◌||◌, Option, none, some, List, [], ◌∷◌, ◌++◌, ltb, leb, ◌==◌,
  if◌then◌else◌, length,
}
use tproxy_server.Base.Text.{starts, ends, split}

-- The four errors of ValidateBasePath, in the order of its tests.
pub data PathError : Type 0 where
  too_long slash_at_end empty_segment bad_segment : PathError

abbrev pub max_base_path_length : ℕ
max_base_path_length = 128

-- The byte of "/".
abbrev pub slash : ℕ
slash = 47

abbrev pub is_alphanumeric : ℕ → Bool
is_alphanumeric c = (leb 97 c && leb c 122) || ((leb 65 c && leb c 90) || (leb 48 c && leb c 57))

-- "-" or "_"
abbrev pub is_joiner : ℕ → Bool
is_joiner c = (c == 45) || (c == 95)

-- The loop over a segment's bytes, where `i > 0`.
unfoldable pub later_bytes : List ℕ → Bool
later_bytes [] = true
later_bytes (c ∷ cs) = (is_alphanumeric c || is_joiner c) && later_bytes cs

-- The loop over all of a segment's bytes.
unfoldable pub segment_bytes : List ℕ → Bool
unfolding later_bytes
segment_bytes [] = true
segment_bytes (c ∷ cs) = is_alphanumeric c && later_bytes cs

unfoldable pub check_segments : List (List ℕ) → Option PathError
unfolding segment_bytes
check_segments [] = none
check_segments (segment ∷ segments) =
    if length segment == 0
    then some empty_segment
    else if not (segment_bytes segment)
    then some bad_segment
    else check_segments segments

unfoldable pub validate_base_path : List ℕ → Option PathError
unfolding check_segments
validate_base_path path =
    if length path == 0
    then none
    else if ltb max_base_path_length (length path)
    then some too_long
    else if starts slash path || ends slash path
    then some slash_at_end
    else check_segments (split slash path)

unfoldable pub base : List ℕ → List ℕ
base path = if length path == 0 then slash ∷ [] else slash ∷ path ++ (slash ∷ [])
