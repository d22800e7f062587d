-- ===== src/Auth/Plain.antt =====
-- What auth.NormalizePath makes of a plain path, in each of its spellings.
use mathlib.Core.List.{reverse, reverse-cons, reverse-reverse, append-nil, append_assoc}
use irl_universal_ingest.Prelude.{
  ℕ, ◌≡◌, refl, sym, ap, ◌∙◌, ◌≢◌, false, [], ◌∷◌, ◌++◌, Text, text_beq, text_beq_iff, some, arith,
  All-append, nat_eq, text_eq,
}
use irl_universal_ingest.Go.Strings.{codes, has_prefix, has_suffix, strip, trim_space}
use irl_universal_ingest.Go.Strings.Laws.{trim_suffix-append, trim_suffix_none, trim_space_dark}
use irl_universal_ingest.Go.Url
use irl_universal_ingest.Go.Url.{Url}
use irl_universal_ingest.Go.Url.Laws.{
  IsPathText, IsQueryText, IsPathText-IsDark, parse_path, parse_path_query,
}
use irl_universal_ingest.Auth.{
  parsed_path, with_leading_slash, without_trailing_slash, normalize_path,
}

-- A path without its leading slash: plain bytes, and no slash at either end.
pub record IsName (b : Text) : Type 0 where
  pub bytes : IsPathText b
  pub relative : has_prefix b (codes "/") ≡ false
  pub unended : has_suffix b (codes "/") ≡ false
  pub nonempty : b ≢ []

-- The ways to write the path "/b".
pub data Spelling (b : Text) (s : Text) : Type 0 where
  absolute : s ≡ b'/' ∷ b → Spelling b s
  relative : s ≡ b → Spelling b s
  slashed : s ≡ b'/' ∷ b ++ b'/' ∷ [] → Spelling b s
  queried : (q : Text) → IsQueryText q → s ≡ b'/' ∷ b ++ b'?' ∷ q → Spelling b s

has_prefix-append :
    (r : Text) (x c : ℕ) → r ≢ [] → has_prefix (r ++ c ∷ []) (x ∷ []) ≡ has_prefix r (x ∷ [])
unfolding has_prefix strip
has_prefix-append [] x c h = absurd (h refl)
has_prefix-append (y ∷ r) x c h = ground arith

reverse-ne-nil : (b : Text) → b ≢ [] → reverse b ≢ []
reverse-ne-nil b h e = h (sym (reverse-reverse b) ∙ ap reverse e)

has_suffix-cons :
    (c : ℕ) (b : Text) → b ≢ [] → has_suffix (c ∷ b) (codes "/") ≡ has_suffix b (codes "/")
unfolding has_suffix
has_suffix-cons c b h =
    rw (reverse-cons c b) (has_prefix-append (reverse b) b'/' c (reverse-ne-nil b h))

trailing_none :
    (b : Text)
    → has_suffix (b'/' ∷ b) (codes "/") ≡ false
    → without_trailing_slash (b'/' ∷ b) ≡ b'/' ∷ b
unfolding without_trailing_slash text_beq
trailing_none b h = rw (without_trailing_slash, trim_suffix_none (b'/' ∷ b) b'/' h) refl

trailing_one : (b : Text) → without_trailing_slash (b'/' ∷ b ++ b'/' ∷ []) ≡ b'/' ∷ b
unfolding without_trailing_slash text_beq
trailing_one b = rw (without_trailing_slash, trim_suffix-append (b'/' ∷ b) b'/') refl

trailing_two : (b : Text) → without_trailing_slash (b'/' ∷ b ++ codes "//") ≡ b'/' ∷ b ++ codes "/"
trailing_two b = rw (append_assoc b (b'/' ∷ []) (b'/' ∷ [])) at (trailing_one (b ++ b'/' ∷ []))

leading_missing : (b : Text) → has_prefix b (codes "/") ≡ false → with_leading_slash b ≡ b'/' ∷ b
unfolding with_leading_slash
leading_missing b h = rw (with_leading_slash, h) refl

parsed_path_of :
    (raw s q : Text)
    → s ≢ []
    → Url.parse raw ≡ some (record { scheme = []; path = s; raw_query = q })
    → parsed_path raw ≡ s
unfolding parsed_path
parsed_path_of raw s q h p = rw (parsed_path, p) (ground (arith, text_beq_iff s []))

-- The cleaning of a path that url.Parse finds.
normalize_of_parse :
    (raw s q : Text)
    → s ≢ []
    → IsPathText s
    → Url.parse raw ≡ some (record { scheme = []; path = s; raw_query = q })
    → normalize_path raw ≡ without_trailing_slash (with_leading_slash s)
normalize_of_parse raw s q h k p =
    unfold normalize_path in
    ap (λ t. without_trailing_slash (with_leading_slash t))
      (ap trim_space (parsed_path_of raw s q h p) ∙ trim_space_dark s (IsPathText-IsDark s k))

single_slash :
    (b t : Text)
    → b ≢ []
    → has_prefix b (codes "/") ≡ false
    → has_prefix (b'/' ∷ b ++ t) (codes "//") ≡ false
unfolding has_prefix
single_slash [] t n h = absurd (n refl)
single_slash (c ∷ b) t n h = ground arith

not_double : (b : Text) → has_prefix b (codes "/") ≡ false → has_prefix b (codes "//") ≡ false
unfolding has_prefix
not_double [] h = refl
not_double (c ∷ b) h = ground arith

module _ (b : Text) (name : IsName b) where
  open name use {bytes, relative as no_slash, unended, nonempty}

  unended_path : has_suffix (b'/' ∷ b) (codes "/") ≡ false
  unended_path = has_suffix-cons b'/' b nonempty ∙ unended

  single : has_prefix (b'/' ∷ b) (codes "//") ≡ false
  single = rw (append-nil b) at (single_slash b [] nonempty no_slash)

  led : (t : Text) → with_leading_slash (b'/' ∷ t) ≡ b'/' ∷ t
  unfolding with_leading_slash
  led t = refl

  of_absolute : without_trailing_slash (with_leading_slash (b'/' ∷ b)) ≡ b'/' ∷ b
  of_absolute = ap without_trailing_slash (led b) ∙ trailing_none b unended_path

  -- Each spelling of a plain path is cleaned to the path itself.
  pub normalize_path-Spelling : (s : Text) → Spelling b s → normalize_path s ≡ b'/' ∷ b
  normalize_path-Spelling s (absolute e) = rw e (
      normalize_of_parse (b'/' ∷ b) (b'/' ∷ b) [] (λ q. cc) (refl, bytes)
        (parse_path (b'/' ∷ b) (refl, bytes) single)
      ∙ of_absolute)
  normalize_path-Spelling s (relative e) = rw e (
      normalize_of_parse b b [] nonempty bytes (parse_path b bytes (not_double b no_slash))
      ∙ (ap without_trailing_slash (leading_missing b no_slash) ∙ trailing_none b unended_path))
  normalize_path-Spelling s (slashed e) =
      let long = All-append _ b (b'/' ∷ []) bytes (refl, tt) in
      rw e (
        normalize_of_parse (b'/' ∷ b ++ b'/' ∷ []) (b'/' ∷ b ++ b'/' ∷ []) [] (λ q. cc) (refl, long)
          (parse_path (b'/' ∷ b ++ b'/' ∷ []) (refl, long)
            (single_slash b (b'/' ∷ []) nonempty no_slash))
        ∙ (ap without_trailing_slash (led (b ++ b'/' ∷ [])) ∙ trailing_one b))
  normalize_path-Spelling s (queried q hq e) = rw e (
      normalize_of_parse (b'/' ∷ b ++ b'?' ∷ q) (b'/' ∷ b) q (λ q. cc) (refl, bytes)
        (parse_path_query b q bytes single hq)
      ∙ of_absolute)

  -- Of two trailing slashes one is left, so cleaning the result again gives another path.
  pub normalize_path_twice :
      (normalize_path (b'/' ∷ b ++ codes "//") ≡ b'/' ∷ b ++ codes "/")
      × (normalize_path (normalize_path (b'/' ∷ b ++ codes "//")) ≡ b'/' ∷ b)
  normalize_path_twice =
      let long = All-append _ b (codes "//") bytes (refl, (refl, tt)) in
      let first : normalize_path (b'/' ∷ b ++ codes "//") ≡ b'/' ∷ b ++ codes "/" =
        normalize_of_parse (b'/' ∷ b ++ codes "//") (b'/' ∷ b ++ codes "//") [] (λ q. cc)
          (refl, long)
          (parse_path (b'/' ∷ b ++ codes "//") (refl, long)
            (single_slash b (codes "//") nonempty no_slash))
        ∙ (ap without_trailing_slash (led (b ++ codes "//")) ∙ trailing_two b) in
      (first, ap normalize_path first ∙ normalize_path-Spelling _ (slashed refl))
