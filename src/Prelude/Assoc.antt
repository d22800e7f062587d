-- ===== src/Prelude/Assoc.antt =====
-- A Go map as an association list without repeated keys, over any type of keys with an equality.
use mathlib.Core.Path.{◌≡◌, refl}
use mathlib.Core.Option.{Option, none, some}
use mathlib.Core.List.{List, [], ◌∷◌}
use native.Mathlib.Omega.{arith}
use irl_universal_ingest.Prelude.Tests.{if◌then◌else◌}
use irl_universal_ingest.Prelude.Keys.{Equality, ◌==◌}

module _ {ℓ κ} {K : Type ℓ} {V : Type κ} ⦃e : Equality K⦄ where
  unfoldable pub lookup : K → List (K × V) → Option V
  lookup k [] = none
  lookup k ((j, v) ∷ m) = if j == k then some v else lookup k m

  -- m[key] = new
  unfoldable pub insert : K → V → List (K × V) → List (K × V)
  insert key new [] = (key, new) ∷ []
  insert key new ((at, old) ∷ rest) =
      if at == key then (key, new) ∷ rest else (at, old) ∷ insert key new rest

  -- delete(m, key): a key stands at most once.
  unfoldable pub erase : K → List (K × V) → List (K × V)
  erase key [] = []
  erase key ((at, old) ∷ rest) = if at == key then erase key rest else (at, old) ∷ erase key rest

  pub lookup-insert :
      (key other : K) (new : V) (m : List (K × V))
      → lookup other (insert key new m) ≡ (if key == other then some new else lookup other m)
  unfolding lookup insert
  lookup-insert key other new [] = refl
  lookup-insert key other new ((at, old) ∷ m) =
      let rest = lookup-insert key other new m in
      ground (arith, rest, e.beq_iff at other, e.beq_iff at key, e.beq_iff key other)

  pub lookup-erase :
      (key other : K) (m : List (K × V))
      → lookup other (erase key m) ≡ (if key == other then none else lookup other m)
  unfolding lookup erase
  lookup-erase key other [] = ground arith
  lookup-erase key other ((at, old) ∷ m) =
      let rest = lookup-erase key other m in
      ground (arith, rest, e.beq_iff at other, e.beq_iff at key, e.beq_iff key other)
