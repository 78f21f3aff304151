-- ===== src/Keys/Secrets.antt =====
-- keys-panel/store.go: upsertSecretArgs, the lines of a backend's env file.
pub mod Lines
use tproxy_server.Base.{
  ℕ, Bool, true, false, not, ◌&&◌, ◌||◌, List, [], ◌∷◌, ◌++◌, ◌==◌, if◌then◌else◌, length, take,
  bytes_equal,
}
use tproxy_server.Base.Text.{split, join}
use tproxy_server.Token.{codes}

abbrev pub newline : ℕ
newline = 10

abbrev pub header : List ℕ
header = codes "# Written by tproxy-keys. Do not edit by hand."

abbrev pub plain : List ℕ
plain = codes "MTPROXY_SECRET_ARGS="

abbrev pub spread : List ℕ
spread = codes "MTPROXY_BACKEND_SECRET_ARGS="

-- strings.HasPrefix
unfoldable pub has_prefix : List ℕ → List ℕ → Bool
has_prefix [] s = true
has_prefix (c ∷ cs) [] = false
has_prefix (c ∷ cs) (x ∷ xs) = (x == c) && has_prefix cs xs

-- A line that the panel owns, or an empty one.
unfoldable pub is_owned : List ℕ → Bool
unfolding has_prefix
is_owned line =
    bytes_equal line []
    || (bytes_equal line header || (has_prefix plain line || has_prefix spread line))

unfoldable pub kept_lines : List (List ℕ) → List (List ℕ)
unfolding is_owned
kept_lines [] = []
kept_lines (line ∷ lines) = if is_owned line then kept_lines lines else line ∷ kept_lines lines

-- The new content of a file that has `existing`, which is empty for a file that is missing.
unfoldable pub upsert_secret_args : List ℕ → List ℕ → List ℕ
unfolding kept_lines
upsert_secret_args existing joined_args =
    join newline (
      kept_lines (split newline existing)
      ++ (header ∷ (plain ++ joined_args) ∷ (spread ++ joined_args) ∷ []))
    ++ (newline ∷ [])
