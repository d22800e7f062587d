-- ===== src/Go/Strings/Laws.antt =====
-- Laws of package strings: cutting at a byte, suffixes, and texts with no white space at the ends.
use mathlib.Core.List.{reverse, reverse-cons, reverse-reverse, reverse-append}
use irl_universal_ingest.Prelude.{
  ℕ, ◌<◌, ◌≡◌, refl, ◌≢◌, false, [], ◌∷◌, ◌++◌, Text, List, All, All-append, arith, map, nat_eq,
}
use irl_universal_ingest.Go.Strings.{
  before, after, contains_byte, strip, trim_suffix, trim_space, trim_from, wide_spaces, has_suffix,
  has_prefix, upper_byte, to_upper,
}

pub All-reverse {ℓ} : {A : Type ℓ} (P : A → Type 0) (xs : List A) → All P xs → All P (reverse xs)
All-reverse P [] h = tt
All-reverse P (x ∷ xs) h =
    rw (reverse-cons x xs) (All-append P (reverse xs) (x ∷ []) (All-reverse P xs h.1) (h.0, tt))

pub before-All : (b : ℕ) (s : Text) → All (λ c. c ≢ b) s → before b s ≡ s
unfolding before
before-All b [] h = refl
before-All b (c ∷ s) h = ground (arith, before-All b s h.1)

pub after-All : (b : ℕ) (s : Text) → All (λ c. c ≢ b) s → after b s ≡ []
unfolding after
after-All b [] h = refl
after-All b (c ∷ s) h = ground (arith, after-All b s h.1)

pub before-append : (b : ℕ) (s t : Text) → All (λ c. c ≢ b) s → before b (s ++ b ∷ t) ≡ s
unfolding before
before-append b [] t h = ground arith
before-append b (c ∷ s) t h = ground (arith, before-append b s t h.1)

pub after-append : (b : ℕ) (s t : Text) → All (λ c. c ≢ b) s → after b (s ++ b ∷ t) ≡ t
unfolding after
after-append b [] t h = ground arith
after-append b (c ∷ s) t h = ground (arith, after-append b s t h.1)

pub contains_byte-append :
    (b : ℕ) (s t : Text)
    → contains_byte b s ≡ false
    → contains_byte b t ≡ false
    → contains_byte b (s ++ t) ≡ false
unfolding contains_byte
contains_byte-append b [] t h k = k
contains_byte-append b (c ∷ s) t h k = ground (arith, contains_byte-append b s t)

pub contains_byte-All : (b : ℕ) (s : Text) → All (λ c. c ≢ b) s → contains_byte b s ≡ false
unfolding contains_byte
contains_byte-All b [] h = refl
contains_byte-All b (c ∷ s) h = ground (arith, contains_byte-All b s h.1)

pub trim_suffix-append : (s : Text) (b : ℕ) → trim_suffix (s ++ b ∷ []) (b ∷ []) ≡ s
unfolding trim_suffix strip
trim_suffix-append s b =
    rw (reverse-append s (b ∷ []), trim_suffix) (ground (arith, reverse-reverse s))

pub trim_suffix_none :
    (s : Text) (b : ℕ) → has_suffix s (b ∷ []) ≡ false → trim_suffix s (b ∷ []) ≡ s
unfolding trim_suffix has_suffix has_prefix
trim_suffix_none s b h = ground arith

-- A byte that is neither white space nor part of one.
abbrev pub IsDark : ℕ → Type 0
IsDark c = (32 < c) × (c < 128)

trim_from_dark : (table : List Text) (s : Text) → All IsDark s → trim_from table 0 s ≡ s
unfolding trim_from
trim_from_dark table [] h = refl
trim_from_dark table (c ∷ s) h = ground arith

pub trim_space_dark : (s : Text) → All IsDark s → trim_space s ≡ s
unfolding trim_space
trim_space_dark s h =
    rw
      (
        trim_from_dark wide_spaces s h,
        trim_from_dark (map reverse wide_spaces) (reverse s) (All-reverse IsDark s h),
      )
      (reverse-reverse s)

upper_byte_idem : (c : ℕ) → upper_byte (upper_byte c) ≡ upper_byte c
unfolding upper_byte
upper_byte_idem c = ground arith

pub to_upper_idem : (s : Text) → to_upper (to_upper s) ≡ to_upper s
unfolding to_upper
to_upper_idem [] = refl
to_upper_idem (c ∷ s) = cc (upper_byte_idem c, to_upper_idem s)
