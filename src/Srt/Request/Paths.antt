-- ===== src/Srt/Request/Paths.antt =====
-- Which identifiers name which stream.
use irl_universal_ingest.Prelude.{
  ℕ, ◌≡◌, ◌∙◌, refl, sym, ap, false, List, [], ◌∷◌, ◌++◌, none, Text, text_eq, nat_eq, arith,
  text_beq,
}
use irl_universal_ingest.Go.Strings.{codes, contains, has_prefix, strip, trim_prefix}
use irl_universal_ingest.Auth.{normalize_path}
use irl_universal_ingest.Auth.Plain.{IsName, relative, normalize_path-Spelling}
use irl_universal_ingest.Srt.Request.{stream_id, without_domain, extract_stream_path}

trim_none : (s p : Text) → has_prefix s p ≡ false → trim_prefix s p ≡ s
unfolding has_prefix trim_prefix
trim_none s p h = ground arith

strip-append : (p q s : Text) → strip p s ≡ none → strip (p ++ q) s ≡ none
unfolding strip
strip-append [] q s h = absurd (cc)
strip-append (b ∷ p) q [] h = refl
strip-append (b ∷ p) q (c ∷ s) h = ground (arith, strip-append p q s)

has_prefix-append : (s p q : Text) → has_prefix s p ≡ false → has_prefix s (p ++ q) ≡ false
unfolding has_prefix
has_prefix-append s p q h = ground (arith, strip-append p q s)

-- The prefixes that are cut from a stream's own name.
abbrev pub IsUncut : Text → Type 0
IsUncut b = (has_prefix b (codes "publish") ≡ false) × (has_prefix b (codes "play") ≡ false)

cut :
    (raw r s t u : Text)
    → trim_prefix raw (codes "publish/") ≡ r
    → trim_prefix r (codes "play/") ≡ s
    → trim_prefix s (codes "publish") ≡ t
    → trim_prefix t (codes "play") ≡ u
    → without_domain raw ≡ u
unfolding without_domain
cut raw r s t u e f g h =
    ap
      (λ x.
        trim_prefix (trim_prefix (trim_prefix x (codes "play/")) (codes "publish")) (codes "play"))
      e
    ∙ (ap (λ x. trim_prefix (trim_prefix x (codes "publish")) (codes "play")) f
        ∙ (ap (λ x. trim_prefix x (codes "play")) g ∙ h))

-- The slash is cut with the domain.
trim_domain : (b : Text) → trim_prefix (codes "publish/" ++ b) (codes "publish/") ≡ b
unfolding trim_prefix strip
trim_domain b = refl

trim_play : (b : Text) → trim_prefix (codes "play/" ++ b) (codes "play/") ≡ b
unfolding trim_prefix strip
trim_play b = refl

keep_play : (b : Text) → trim_prefix (codes "play/" ++ b) (codes "publish/") ≡ codes "play/" ++ b
unfolding trim_prefix strip
keep_play b = refl

module _ (b : Text) (h : IsUncut b) where
  published : without_domain (codes "publish/" ++ b) ≡ b
  published =
      cut (codes "publish/" ++ b) b b b b (trim_domain b)
        (trim_none b (codes "play/") (has_prefix-append b (codes "play") (codes "/") h.1))
        (trim_none b (codes "publish") h.0) (trim_none b (codes "play") h.1)

  played : without_domain (codes "play/" ++ b) ≡ b
  played =
      cut (codes "play/" ++ b) (codes "play/" ++ b) b b b (keep_play b) (trim_play b)
        (trim_none b (codes "publish") h.0) (trim_none b (codes "play") h.1)

merged :
    (t : Text) → has_prefix t (codes "/") ≡ false → without_domain (codes "publish/play" ++ t) ≡ t
unfolding trim_prefix strip has_prefix
merged t h =
    cut (codes "publish/play" ++ t) (codes "play" ++ t) (codes "play" ++ t) (codes "play" ++ t) t
      refl (ground arith) refl refl

module _ (parse_query : Text → List (Text × Text)) where
  stream_id_plain :
      (raw : Text) → contains raw (codes "://") ≡ false → stream_id parse_query raw ≡ raw
  unfolding stream_id
  stream_id_plain raw h = simp (stream_id, h) refl

  no_scheme :
      (c : ℕ) (raw : Text)
      → contains (c ∷ raw) (codes "://") ≡ false
      → extract_stream_path parse_query (c ∷ raw) ≡ normalize_path (without_domain (c ∷ raw))
  unfolding extract_stream_path text_beq
  no_scheme c raw h = ap (λ x. normalize_path (without_domain x)) (stream_id_plain (c ∷ raw) h)

  -- For a plain path that contains no "://" and does not begin with "publish" or "play" after its
  -- slash, the identifier of its publisher and the one that the relay plays name that path.
  pub extract_stream_path-domain :
      (b : Text)
      → IsName b
      → IsUncut b
      → contains b (codes "://") ≡ false
      → (extract_stream_path parse_query (codes "publish/" ++ b) ≡ b'/' ∷ b)
        × (extract_stream_path parse_query (codes "play/" ++ b) ≡ b'/' ∷ b)
  unfolding contains has_prefix strip
  extract_stream_path-domain b name h plain =
      let clean = normalize_path-Spelling b name b (relative refl) in
      (
        no_scheme _ _ plain ∙ (ap normalize_path (published b h) ∙ clean),
        no_scheme _ _ plain ∙ (ap normalize_path (played b h) ∙ clean),
      )

  -- A stream whose name begins with "play" gets the path of another one: with and without "play", the
  -- identifiers of two publishers give the same path, if what follows is no slash, contains no "://",
  -- and itself begins with neither prefix.
  pub extract_stream_path-merges :
      (t : Text)
      → has_prefix t (codes "/") ≡ false
      → IsUncut t
      → contains t (codes "://") ≡ false
      → extract_stream_path parse_query (codes "publish/play" ++ t)
        ≡ extract_stream_path parse_query (codes "publish/" ++ t)
  unfolding contains has_prefix strip
  extract_stream_path-merges t no_slash h plain =
      no_scheme _ _ plain
      ∙ (ap normalize_path (merged t no_slash ∙ sym (published t h)) ∙ sym (no_scheme _ _ plain))
