-- ===== src/Auth/Tests.antt =====
-- The cases of auth_test.go.
use irl_universal_ingest.Prelude.{◌≡◌, refl, true, false, [], ◌∷◌, Text, List, text_beq}
use irl_universal_ingest.Go.Strings.{codes, has_prefix, has_suffix}
use irl_universal_ingest.Go.Url.Host.{valid_authority}
use irl_universal_ingest.Auth.{normalize_path, is_allowed}
use irl_universal_ingest.Auth.Plain.{IsName, relative, absolute}
use irl_universal_ingest.Auth.Allowed.{is_allowed-Spelling}
use irl_universal_ingest.Go.Url.Laws.{IsQueryText}
use irl_universal_ingest.Prelude.{inl, arith}

abbrev live_and_stream : List Text
live_and_stream = codes "/live" ∷ codes "/stream" ∷ []

test_exact : is_allowed (codes "/live") live_and_stream ≡ true
unfolding is_allowed text_beq
test_exact = refl

test_no_slash : is_allowed (codes "live") (codes "/live" ∷ []) ≡ true
unfolding is_allowed text_beq
test_no_slash = refl

test_query : is_allowed (codes "/live?key=secret") (codes "/live" ∷ []) ≡ true
unfolding is_allowed text_beq
test_query = refl

test_reject : is_allowed (codes "/unknown") live_and_stream ≡ false
unfolding is_allowed text_beq
test_reject = refl

test_url : normalize_path (codes "rtmp://host:1935/live/stream%20a/?x=1#f") ≡ codes "/live/stream a"
unfolding normalize_path text_beq valid_authority
test_url = refl

test_opaque : normalize_path (codes "publish:live") ≡ codes "/publish:live"
unfolding normalize_path text_beq
test_opaque = refl

live-IsName : IsName (codes "live")
unfolding has_prefix has_suffix
live-IsName = record {
  bytes = (refl, (refl, (refl, (refl, tt))));
  relative = refl;
  unended = refl;
  nonempty = λ e. cc;
}

query : IsQueryText (codes "key=1")
query = (
  (omega arith, omega arith, omega arith),
  (
    (omega arith, omega arith, omega arith),
    (
      (omega arith, omega arith, omega arith),
      ((omega arith, omega arith, omega arith), ((omega arith, omega arith, omega arith), tt)),
    ),
  ),
)

is_allowed-Spelling_example : is_allowed (codes "live") live_and_stream ≡ true
is_allowed-Spelling_example =
    is_allowed-Spelling (codes "live") (codes "live") live_and_stream live-IsName (relative refl)
      (inl (absolute refl))
