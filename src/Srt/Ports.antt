-- ===== src/Srt/Ports.antt =====
-- internal/ingest/srt/server.go: the loopback port for srtla_rec.
use irl_universal_ingest.Prelude.{
  ℕ, zero, suc, ◌<◌, ◌≡◌, ◌≢◌, ◌⊎◌, refl, Bool, true, false, ◌||◌, ℤ, pos, ◌+ℤ◌, ◌==◌, int_eq,
  int_beq_iff, List, Text, if◌then◌else◌, arith, inl, inr, Bool-cases, ◌∙◌,
}

-- Without the manager, the relay and the tracker, which the adapters share.
pub record ServerOptions : Type 0 where
  pub srt_port : ℤ
  pub srtla_port : ℤ
  pub player_port : ℤ
  pub http_port : ℤ
  pub latency_ms : ℤ
  pub latency_max_ms : ℤ
  pub idle_timeout_sec : ℤ
  pub passphrase : Text
  pub log_level : Text
  pub allowed_paths : List Text

unfoldable pub is_taken : ServerOptions → ℤ → Bool
is_taken o p = o.srt_port == p || o.srtla_port == p || o.player_port == p || o.http_port == p

-- The loop from an offset on, with the number of rounds that are left.
unfoldable pub pick_from : ServerOptions → ℕ → ℕ → ℤ
unfolding is_taken
pick_from o zero offset = o.srt_port +ℤ pos 100
pick_from o (suc n) offset =
    let rest = pick_from o n (suc offset) in
    let candidate = o.srt_port +ℤ pos offset in if is_taken o candidate then rest else candidate

unfoldable pub pick_internal_srtla_port : ServerOptions → ℤ
unfolding pick_from
pick_internal_srtla_port o = pick_from o 99 1

add_injective : (p : ℤ) (a b : ℕ) → a ≢ b → p +ℤ pos a ≢ p +ℤ pos b
unfolding ◌+ℤ◌
add_injective p a b h = λ e. ground arith

not_itself : (p : ℤ) (a : ℕ) → p +ℤ pos (suc a) ≢ p
unfolding ◌+ℤ◌
not_itself p a = λ e. ground arith

-- Different from all four ports.
abbrev pub IsFree : ServerOptions → ℤ → Type 0
IsFree o p = (p ≢ o.srt_port) × (p ≢ o.srtla_port) × (p ≢ o.player_port) × (p ≢ o.http_port)

abbrev Other : ServerOptions → ℤ → Type 0
Other o p = (p ≡ o.srtla_port) ⊎ ((p ≡ o.player_port) ⊎ (p ≡ o.http_port))

is_taken-IsFree :
    (o : ServerOptions) (p : ℤ)
    → p ≢ o.srt_port
    → (is_taken o p ≡ false → IsFree o p) × (is_taken o p ≡ true → Other o p)
unfolding is_taken
is_taken-IsFree o p h =
    let a = int_beq_iff o.srt_port p in
    let b = int_beq_iff o.srtla_port p in
    let c = int_beq_iff o.player_port p in
    let d = int_beq_iff o.http_port p in (ground (arith, a, b, c, d), ground (arith, a, b, c, d))

-- Three ports cannot take four candidates.
crowded :
    (o : ServerOptions) (p q r s : ℤ)
    → Other o p
    → Other o q
    → Other o r
    → Other o s
    → p ≢ q
    → p ≢ r
    → p ≢ s
    → q ≢ r
    → q ≢ s
    → r ≢ s
    → ⊥
crowded o p q r s hp hq hr hs a b c d e f = ground arith

next :
    (o : ServerOptions) (n k : ℕ)
    → (IsFree o (pick_from o (suc n) (suc k))
        × (pick_from o (suc n) (suc k) ≡ o.srt_port +ℤ pos (suc k)))
      ⊎ (Other o (o.srt_port +ℤ pos (suc k))
          × (pick_from o (suc n) (suc k) ≡ pick_from o n (suc (suc k))))
unfolding pick_from
next o n k =
    let p = o.srt_port +ℤ pos (suc k) in
    let (free, other) = is_taken-IsFree o p (not_itself o.srt_port k) in
    elim (Bool-cases (is_taken o p)) [
      | inl e ↦ inr (other e, rw (pick_from, e) refl)
      | inr e ↦ inl (rw (pick_from, e) (free e), rw (pick_from, e) refl)
    ]

-- The port that is picked for srtla_rec is one of the four after the SRT port, and is none of the
-- four ports of the SRT server.
pub pick_internal_srtla_port-IsFree :
    (o : ServerOptions)
    → let p = pick_internal_srtla_port o in
      IsFree o p × ((k : ℕ) × (k < 4) × (p ≡ o.srt_port +ℤ pos (suc k)))
unfolding pick_internal_srtla_port
pick_internal_srtla_port-IsFree o =
    let apart = add_injective o.srt_port in
    elim (next o 98 0) [
      | inl (f, e) ↦ (f, (0, omega arith, e))
      | inr (h1, e1) ↦ elim (next o 97 1) [
        | inl (f, e) ↦ (rw (e1) f, (1, omega arith, e1 ∙ e))
        | inr (h2, e2) ↦ elim (next o 96 2) [
          | inl (f, e) ↦ (rw (e1, e2) f, (2, omega arith, e1 ∙ (e2 ∙ e)))
          | inr (h3, e3) ↦ elim (next o 95 3) [
            | inl (f, e) ↦ (rw (e1, e2, e3) f, (3, omega arith, e1 ∙ (e2 ∙ (e3 ∙ e))))
            | inr (h4, e4) ↦ absurd (
                crowded o (o.srt_port +ℤ pos 1) (o.srt_port +ℤ pos 2) (o.srt_port +ℤ pos 3)
                  (o.srt_port +ℤ pos 4) h1 h2 h3 h4 (apart 1 2 (omega arith))
                  (apart 1 3 (omega arith)) (apart 1 4 (omega arith)) (apart 2 3 (omega arith))
                  (apart 2 4 (omega arith)) (apart 3 4 (omega arith)))
          ]
        ]
      ]
    ]
