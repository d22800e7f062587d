-- ===== src/Auth.antt =====
-- internal/auth/auth.go: the paths that a broadcaster may use.
pub mod Plain
pub mod Allowed
mod Tests
use irl_universal_ingest.Prelude.{
  Bool, true, false, ◌||◌, List, [], ◌∷◌, ◌==◌, text_eq, if◌then◌else◌, Text, none, some,
}
use irl_universal_ingest.Go.Strings.{codes, has_prefix, trim_suffix, trim_space}
use irl_universal_ingest.Go.Url

-- The path of the parsed URL, unless there is none.
parsed_path : Text → Text
unfolding Url.parse
parsed_path raw = elim (Url.parse raw) [
  | none ↦ raw
  | some u ↦ if u.path == [] then raw else u.path
]

with_leading_slash : Text → Text
unfolding has_prefix
with_leading_slash s = if has_prefix s (codes "/") then s else b'/' ∷ s

-- One trailing slash goes, unless nothing else is left.
without_trailing_slash : Text → Text
unfolding trim_suffix
without_trailing_slash s =
    let trimmed = trim_suffix s (codes "/") in if trimmed == [] then codes "/" else trimmed

unfoldable pub normalize_path : Text → Text
unfolding parsed_path with_leading_slash without_trailing_slash trim_space
normalize_path raw = without_trailing_slash (with_leading_slash (trim_space (parsed_path raw)))

-- The loop over the allowed paths.
unfoldable pub matches_any : Text → List Text → Bool
unfolding normalize_path
matches_any input [] = false
matches_any input (allowed ∷ rest) = normalize_path allowed == input || matches_any input rest

unfoldable pub is_allowed : Text → List Text → Bool
unfolding matches_any normalize_path
is_allowed path [] = true
is_allowed path (p ∷ ps) = matches_any (normalize_path path) (p ∷ ps)
