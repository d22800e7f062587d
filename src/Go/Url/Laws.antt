-- ===== src/Go/Url/Laws.antt =====
-- url.Parse on the texts that are plain paths, with and without a query.
use mathlib.Core.Path.{ap₂}
use irl_universal_ingest.Prelude.{
  Option, ◌∙◌, ℕ, ◌<◌, ◌≡◌, refl, ◌≢◌, Bool, true, false, ◌||◌, [], ◌∷◌, ◌++◌, Text, some, none,
  text_beq, All, All-append, arith, nat_eq, ◌==◌, text_eq,
}
use irl_universal_ingest.Go.Strings.{before, contains_byte, codes, has_prefix}
use irl_universal_ingest.Go.Strings.Laws.{
  before-All, after-All, before-append, after-append, IsDark,
}
use irl_universal_ingest.Go.Url.Host.{is_alpha, is_digit, unescape}
use irl_universal_ingest.Go.Url.{
  Url, scheme_from, has_control, parse_hierarchy, parse_rest, parse_unfragmented, parse,
  with_fragment,
}

-- Letters, digits, "-", ".", "_", "~" and the slash.
abbrev pub is_path_byte : ℕ → Bool
is_path_byte c =
    is_alpha c || is_digit c || c == b'-' || c == b'.' || c == b'_' || c == b'~' || c == b'/'

abbrev pub IsPathText : Text → Type 0
IsPathText = All (λ c. is_path_byte c ≡ true)

-- Any byte of a query: no control byte and no "#".
abbrev pub IsQueryText : Text → Type 0
IsQueryText = All (λ c. (31 < c) × (c ≢ 127) × (c ≢ b'#'))

pub IsPathText-IsDark : (s : Text) → IsPathText s → All IsDark s
IsPathText-IsDark [] h = tt
IsPathText-IsDark (c ∷ s) h = (ground arith, IsPathText-IsDark s h.1)

pub IsPathText-ne : (b : ℕ) (s : Text) → is_path_byte b ≡ false → IsPathText s → All (λ c. c ≢ b) s
IsPathText-ne b [] e h = tt
IsPathText-ne b (c ∷ s) e h = (ground arith, IsPathText-ne b s e h.1)

IsQueryText-ne : (q : Text) → IsQueryText q → All (λ c. c ≢ b'#') q
IsQueryText-ne [] h = tt
IsQueryText-ne (c ∷ q) h = (h.0.2, IsQueryText-ne q h.1)

IsPathText-query : (s : Text) → IsPathText s → IsQueryText s
IsPathText-query [] h = tt
IsPathText-query (c ∷ s) h = (ground arith, IsPathText-query s h.1)

has_control_none : (s : Text) → IsQueryText s → has_control s ≡ false
unfolding has_control
has_control_none [] h = refl
has_control_none (c ∷ s) h = ground (arith, has_control_none s h.1)

pub unescape_plain : (s : Text) → All (λ c. c ≢ b'%') s → unescape s ≡ some s
unfolding unescape
unescape_plain [] h = refl
unescape_plain (c ∷ []) h = ground arith
unescape_plain (c ∷ a ∷ []) h = ground arith
unescape_plain (c ∷ a ∷ b ∷ s) h = ground (arith, unescape_plain (a ∷ b ∷ s) h.1)

-- A path has no scheme, since it has no colon.
scheme_from_path : (raw seen s : Text) → IsPathText s → scheme_from raw seen s ≡ some ([], raw)
unfolding scheme_from
scheme_from_path raw seen [] h = refl
scheme_from_path raw seen (c ∷ s) h = ground (arith, scheme_from_path raw (c ∷ seen) s h.1)

parse_hierarchy_path :
    (s q : Text)
    → IsPathText s
    → has_prefix s (codes "//") ≡ false
    → parse_hierarchy [] s q ≡ some (record { scheme = []; path = s; raw_query = q })
unfolding parse_hierarchy text_beq
parse_hierarchy_path s q h k = ground (arith, unescape_plain s (IsPathText-ne b'%' s refl h))

contains_byte-before :
    (b d : ℕ) (s : Text) → All (λ c. c ≢ b) s → contains_byte b (before d s) ≡ false
unfolding contains_byte before
contains_byte-before b d [] h = refl
contains_byte-before b d (c ∷ s) h = ground (arith, contains_byte-before b d s h.1)

parse_rest_path :
    (s : Text)
    → IsPathText s
    → has_prefix s (codes "//") ≡ false
    → parse_rest [] s ≡ some (record { scheme = []; path = s; raw_query = [] })
unfolding parse_rest text_beq
parse_rest_path s h k =
    rw
      (
        before-All b'?' s (IsPathText-ne b'?' s refl h),
        after-All b'?' s (IsPathText-ne b'?' s refl h),
      )
      (ground (
        arith,
        parse_hierarchy_path s [] h k,
        contains_byte-before b':' b'/' s (IsPathText-ne b':' s refl h),
      ))

not_star : (s : Text) → IsPathText s → text_beq s (codes "*") ≡ false
unfolding text_beq
not_star [] h = refl
not_star (c ∷ s) h = ground arith

parse_unfragmented_path :
    (s : Text)
    → IsPathText s
    → has_prefix s (codes "//") ≡ false
    → parse_unfragmented s ≡ some (record { scheme = []; path = s; raw_query = [] })
unfolding parse_unfragmented
parse_unfragmented_path s h k =
    rw
      (
        parse_unfragmented,
        has_control_none s (IsPathText-query s h),
        not_star s h,
        scheme_from_path s [] s h,
      )
      (parse_rest_path s h k)

with_fragment-nil : (o : Option Url) → with_fragment [] o ≡ o
unfolding with_fragment
with_fragment-nil none = refl
with_fragment-nil (some u) = refl

parse_no_fragment : (s : Text) → All (λ c. c ≢ b'#') s → parse s ≡ parse_unfragmented s
unfolding parse
parse_no_fragment s h =
    ap₂ (λ (a b : Text). with_fragment a (parse_unfragmented b)) (after-All b'#' s h)
      (before-All b'#' s h)
    ∙ with_fragment-nil (parse_unfragmented s)

-- A plain path is its own path.
pub parse_path :
    (s : Text)
    → IsPathText s
    → has_prefix s (codes "//") ≡ false
    → parse s ≡ some (record { scheme = []; path = s; raw_query = [] })
parse_path s h k = parse_no_fragment s (IsPathText-ne b'#' s refl h) ∙ parse_unfragmented_path s h k

parse_unfragmented_query :
    (s q : Text)
    → IsPathText s
    → has_prefix (b'/' ∷ s) (codes "//") ≡ false
    → IsQueryText q
    → parse_unfragmented (b'/' ∷ s ++ b'?' ∷ q)
      ≡ some (record { scheme = []; path = b'/' ∷ s; raw_query = q })
unfolding parse_unfragmented text_beq scheme_from
parse_unfragmented_query s q h k hq =
    let ne = IsPathText-ne b'?' s refl h in
    ground (
      arith,
      has_control_none (b'/' ∷ s ++ b'?' ∷ q)
          ((omega arith), All-append _ s (b'?' ∷ q) (IsPathText-query s h) ((omega arith), hq)),
      before-append b'?' s q ne,
      after-append b'?' s q ne,
      parse_hierarchy_path (b'/' ∷ s) q (refl, h) k,
    )

-- A query behind it is taken off.
pub parse_path_query :
    (s q : Text)
    → IsPathText s
    → has_prefix (b'/' ∷ s) (codes "//") ≡ false
    → IsQueryText q
    → parse (b'/' ∷ s ++ b'?' ∷ q) ≡ some (record { scheme = []; path = b'/' ∷ s; raw_query = q })
parse_path_query s q h k hq =
    let ne =
      All-append (λ c. c ≢ b'#') (b'/' ∷ s) (b'?' ∷ q)
        (IsPathText-ne b'#' (b'/' ∷ s) refl (refl, h)) ((omega arith), IsQueryText-ne q hq) in
    parse_no_fragment (b'/' ∷ s ++ b'?' ∷ q) ne ∙ parse_unfragmented_query s q h k hq
