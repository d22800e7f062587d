-- ===== src/Machine.antt =====
-- What the adapters open, write and start on their machine: listeners, directories and processes.
use irl_universal_ingest.Prelude.{
  ℕ, ◌≡◌, ◌≢◌, refl, List, [], ◌∷◌, ℤ, nat_eq, int_eq, ◌==◌, if◌then◌else◌, Text, text_eq, All,
  none, arith, int_beq_iff, Bool-cases,
}
use irl_universal_ingest.Prelude.Assoc.{lookup, insert, erase}

pub record Process : Type 0 where
  pub pid : ℕ
  pub program : Text
  pub args : List Text

-- The ports that are listened on, the directories with their files, and the processes that run: those
-- that have been started, and have not exited or been sent a kill signal.
pub record Machine : Type 0 where
  pub listeners : List ℤ
  pub dirs : List (Text × List (Text × Text))
  pub running : List Process

unfoldable pub unlisten : ℤ → List ℤ → List ℤ
unlisten p [] = []
unlisten p (q ∷ qs) = let rest = unlisten p qs in if q == p then rest else q ∷ rest

unfoldable pub stop : ℕ → List Process → List Process
stop pid [] = []
stop pid (p ∷ ps) = let rest = stop pid ps in if p.pid == pid then rest else p ∷ rest

module _ (p : ℤ) where
  pub unlisten_absent : (ps : List ℤ) → All (λ q. q ≢ p) ps → unlisten p ps ≡ ps
  unfolding unlisten
  unlisten_absent [] h = refl
  unlisten_absent (q ∷ ps) (h, hs) = ground (arith, h, unlisten_absent ps hs, int_beq_iff q p)

module _ (pid : ℕ) where
  pub stop_absent : (ps : List Process) → All (λ p. p.pid ≢ pid) ps → stop pid ps ≡ ps
  unfolding stop
  stop_absent [] h = refl
  stop_absent (p ∷ ps) (h, hs) = ground (arith, h, stop_absent ps hs)

pub erase_absent : {V : Type 0} (k : Text) (m : List (Text × V)) → lookup k m ≡ none → erase k m ≡ m
unfolding lookup erase
erase_absent k [] h = refl
erase_absent k ((at, v) ∷ m) h = ground (arith, erase_absent k m)

pub erase-insert :
    {V : Type 0} (k : Text) (v : V) (m : List (Text × V)) → erase k (insert k v m) ≡ erase k m
unfolding insert erase
erase-insert k v [] = ground (arith, text_eq.beq_iff k k)
erase-insert k v ((at, old) ∷ m) =
    ground (arith, erase-insert k v m, text_eq.beq_iff at k, text_eq.beq_iff k k)

pub unlisten_comm :
    (p q : ℤ) (ps : List ℤ) → unlisten p (unlisten q ps) ≡ unlisten q (unlisten p ps)
unfolding unlisten
unlisten_comm p q [] = refl
unlisten_comm p q (r ∷ ps) =
    ground (arith, unlisten_comm p q ps, Bool-cases (r == p), Bool-cases (r == q))
