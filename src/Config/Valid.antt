-- ===== src/Config/Valid.antt =====
-- What Validate accepts.
use irl_universal_ingest.Prelude.{
  ◌≤◌, ◌≡◌, ◌≢◌, ◌↔◌, ◌⊎◌, refl, inl, inr, true, false, List, [], ◌∷◌, Option, none, some, ℤ, pos,
  leb_ℤ, Text, length, All, All-map, arith, int_eq, int_beq_iff, text_eq, text_beq_iff, Bool-cases,
  Option-cases, text_beq,
}
use irl_universal_ingest.Prelude.Assoc.{lookup, insert, lookup-insert}
use irl_universal_ingest.Config.{
  Config, PortUse, ConfigError, port_uses, find_clash, validate, check_passphrase, or_else, default,
  load, ok, FileRead, contents, not_exist, failed, Decoded, decoded, malformed,
}

abbrev pub IsUsed : PortUse → Type 0
IsUsed u = leb_ℤ u.port (pos 0) ≡ false

-- No two uses share a port that is in use.
abbrev pub Distinct : List PortUse → Type 0
Distinct [] = Unit
Distinct (u ∷ us) = (IsUsed u → All (λ v. v.port ≢ u.port) us) × Distinct us

abbrev Unseen : List (ℤ × Text) → List PortUse → Type 0
Unseen seen = All (λ u. IsUsed u → lookup u.port seen ≡ none)

-- A port is new after an insertion if it was new before and is another one.
unseen_insert :
    (p q : ℤ) (l : Text) (seen : List (ℤ × Text))
    → (lookup q (insert p l seen) ≡ none) ↔ ((q ≢ p) × (lookup q seen ≡ none))
unseen_insert p q l seen = ground (arith, lookup-insert p q l seen, int_beq_iff p q)

unused : (u : PortUse) → leb_ℤ u.port (pos 0) ≡ true → IsUsed u → ⊥
unused u off on = cc (off, on)

abbrev Free : List (ℤ × Text) → PortUse → Type 0
Free seen u = IsUsed u → lookup u.port seen ≡ none

abbrev New : PortUse → List (ℤ × Text) → PortUse → Type 0
New u seen = Free (insert u.port u.label seen)

clashes :
    (u : PortUse) (us : List PortUse) (seen : List (ℤ × Text)) (other : Text)
    → leb_ℤ u.port (pos 0) ≡ false
    → lookup u.port seen ≡ some other
    → find_clash (u ∷ us) seen ≢ none
unfolding find_clash
clashes u us seen other on e h = ground arith

fresh :
    (u : PortUse) (seen : List (ℤ × Text))
    → IsUsed u
    → (v : PortUse) → New u seen v
    → v.port ≢ u.port
fresh u seen on v k same = ((unseen_insert u.port v.port u.label seen).0 (k (rw same on))).0 same

old :
    (u : PortUse) (seen : List (ℤ × Text))
    → IsUsed u
    → lookup u.port seen ≡ none
    → (v : PortUse) → New u seen v
    → Free seen v
old u seen on e v k used = ((unseen_insert u.port v.port u.label seen).0 (k used)).1

both :
    (u : PortUse) (seen : List (ℤ × Text)) (us : List PortUse)
    → All (λ v. v.port ≢ u.port) us
    → Unseen seen us
    → Unseen (insert u.port u.label seen) us
both u seen [] d n = tt
both u seen (v ∷ us) d n =
    (λ used. (unseen_insert u.port v.port u.label seen).1 (d.0, n.0 used), both u seen us d.1 n.1)

find_clash-Distinct :
    (us : List PortUse) (seen : List (ℤ × Text))
    → find_clash us seen ≡ none
    → Distinct us × Unseen seen us
unfolding find_clash
find_clash-Distinct [] seen h = (tt, tt)
find_clash-Distinct (u ∷ us) seen h = elim (Bool-cases (leb_ℤ u.port (pos 0))) [
  | inl off ↦
      let (d, n) = find_clash-Distinct us seen (rw (off, find_clash) at h) in
      ((λ on. absurd (unused u off on), d), (λ on. absurd (unused u off on), n))
  | inr on ↦ elim (Option-cases (lookup u.port seen)) [
    | inr (other, e) ↦ absurd (clashes u us seen other on e h)
    | inl e ↦
        let (d, n) =
          find_clash-Distinct us (insert u.port u.label seen) (rw (on, e, find_clash) at h) in
        (
          (λ _. All-map (New u seen) (λ v. v.port ≢ u.port) (fresh u seen on) us n, d),
          (λ _. e, All-map (New u seen) (Free seen) (old u seen on e) us n),
        )
  ]
]

Distinct-find_clash :
    (us : List PortUse) (seen : List (ℤ × Text))
    → Distinct us
    → Unseen seen us
    → find_clash us seen ≡ none
unfolding find_clash
Distinct-find_clash [] seen d n = refl
Distinct-find_clash (u ∷ us) seen d n = elim (Bool-cases (leb_ℤ u.port (pos 0))) [
  | inl off ↦ rw (off, find_clash) (Distinct-find_clash us seen d.1 n.1)
  | inr on ↦
      rw (on, n.0 on, find_clash)
        (Distinct-find_clash us (insert u.port u.label seen) d.1 (both u seen us (d.0 on) n.1))
]

Unseen-nil : (us : List PortUse) → Unseen [] us
unfolding lookup
Unseen-nil [] = tt
Unseen-nil (u ∷ us) = (λ _. refl, Unseen-nil us)

IsLong : Text → Type 0
IsLong p = (p ≡ []) ⊎ (10 ≤ length p)

check_passphrase_iff : (p : Text) → (check_passphrase p ≡ none) ↔ IsLong p
unfolding check_passphrase IsLong
check_passphrase_iff p = ground (arith, text_beq_iff p [])

or_else_iff : (a b : Option ConfigError) → (or_else a b ≡ none) ↔ ((a ≡ none) × (b ≡ none))
or_else_iff a b = ground arith

accepts_iff :
    (p : Text) (us : List PortUse)
    → (or_else (check_passphrase p) (find_clash us []) ≡ none) ↔ (IsLong p × Distinct us)
accepts_iff p us =
    let either = or_else_iff (check_passphrase p) (find_clash us []) in
    (
      λ h.
          ((check_passphrase_iff p).0 (either.0 h).0, (find_clash-Distinct us [] (either.0 h).1).0),
      λ h. either.1 ((check_passphrase_iff p).1 h.0, Distinct-find_clash us [] h.1 (Unseen-nil us)),
    )

-- Validate accepts a configuration exactly if the SRT passphrase is empty or has at least ten
-- bytes, and no two of its ports that are in use are the same. The ports are those that the code
-- lists, the output's among them only if its host is local; a port is in use if it is positive.
pub validate_iff :
    (c : Config)
    → (validate c ≡ none)
      ↔ (((c.srt.passphrase ≡ []) ⊎ (10 ≤ length c.srt.passphrase)) × Distinct (port_uses c))
unfolding validate IsLong
validate_iff c = accepts_iff c.srt.passphrase (port_uses c)

default_valid : validate default ≡ none
unfolding validate default text_beq
default_valid = refl

Decoded-cases : (d : Decoded) → ((r : Text) × (d ≡ malformed r)) ⊎ ((c : Config) × (d ≡ decoded c))
Decoded-cases (malformed r) = inl (r, refl)
Decoded-cases (decoded c) = inr (c, refl)

-- A configuration that Load returns passes Validate: the one decoded from a file, whatever the
-- decoder makes of it, and the defaults for a missing file.
pub load_valid :
    (unmarshal : Text → Config → Decoded) (file : FileRead) (c : Config)
    → load unmarshal file ≡ ok c
    → validate c ≡ none
unfolding load
load_valid unmarshal not_exist c h = ground (arith, default_valid)
load_valid unmarshal (failed reason) c h = cc
load_valid unmarshal (contents bytes) c h = elim (Decoded-cases (unmarshal bytes default)) [
  | inl (reason, e) ↦ cc (e, h)
  | inr (cfg, e) ↦ elim (Option-cases (validate cfg)) [
    | inl v ↦ cc (e, v, h)
    | inr (w, v) ↦ cc (e, v, h)
  ]
]
