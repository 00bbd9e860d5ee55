-- ===== src/Runs/Sorting.antt =====
-- `sort_results`: the order that it brings the programs into.
use mathlib.Core.List.Permᴰ
use mathlib.Core.List.{Permᴰ}
use bbench.Base.{◌≡◌, Bool, true, false, List, [], ◌∷◌, All}
use bbench.Base.Float.{Float}

module _ {ℓ} {A : Type ℓ} (before : A → A → Bool) where
  -- No item stands before an earlier one.
  abbrev pub IsSorted : List A → Type 0
  IsSorted [] = Unit
  IsSorted (x ∷ xs) = All (λ y. before y x ≡ false) xs × IsSorted xs

  abbrev pub Irreflexive : Type ℓ
  Irreflexive = (x : A) → before x x ≡ false

  abbrev pub Transitive : Type ℓ
  Transitive = (x y z : A) → before x y ≡ true → before y z ≡ true → before x z ≡ true
