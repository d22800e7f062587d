-- ===== src/Auth/Allowed.antt =====
-- Which requests auth.IsAllowed lets in.
use irl_universal_ingest.Prelude.{
  ◌≡◌, refl, sym, ◌∙◌, ◌↔◌, ◌⊎◌, inl, inr, true, List, [], ◌∷◌, Text, text_beq_iff, Any, arith,
  text_eq,
}
use irl_universal_ingest.Auth.{normalize_path, matches_any, is_allowed}
use irl_universal_ingest.Auth.Plain.{IsName, Spelling, normalize_path-Spelling}

matches_any_iff :
    (input : Text) (ps : List Text)
    → (matches_any input ps ≡ true) ↔ Any (λ p. normalize_path p ≡ input) ps
unfolding matches_any
matches_any_iff input [] = ground arith
matches_any_iff input (p ∷ ps) =
    ground (arith, text_beq_iff (normalize_path p) input, matches_any_iff input ps)

-- A request is let in exactly when the list is empty or holds a path that is cleaned to the same
-- text as the request.
pub is_allowed_iff :
    (path : Text) (ps : List Text)
    → (is_allowed path ps ≡ true)
      ↔ ((ps ≡ []) ⊎ Any (λ p. normalize_path p ≡ normalize_path path) ps)
unfolding is_allowed
is_allowed_iff path [] = (λ _. inl refl, λ _. refl)
is_allowed_iff path (p ∷ ps) =
    let i = matches_any_iff (normalize_path path) (p ∷ ps) in
    (λ h. inr (i.0 h), λ h. ground (arith, h, i))

Any-Spelling :
    (b s : Text)
    → IsName b
    → Spelling b s
    → (ps : List Text) → Any (Spelling b) ps
    → Any (λ p. normalize_path p ≡ normalize_path s) ps
Any-Spelling b s n h [] a = absurd a
Any-Spelling b s n h (p ∷ ps) (inl k) =
    inl (normalize_path-Spelling b n p k ∙ sym (normalize_path-Spelling b n s h))
Any-Spelling b s n h (p ∷ ps) (inr a) = inr (Any-Spelling b s n h ps a)

-- A plain path that is listed in any of its spellings is let in under each of them.
pub is_allowed-Spelling :
    (b s : Text) (ps : List Text)
    → IsName b
    → Spelling b s
    → Any (Spelling b) ps
    → is_allowed s ps ≡ true
is_allowed-Spelling b s ps n h a = (is_allowed_iff s ps).1 (inr (Any-Spelling b s n h ps a))
