-- ===== src/Report/Stats/Extremes.antt =====
-- The least and the greatest value of `compute_stats`.
use bbench.Base.{
  ◌≡◌, refl, sym, ◌⊎◌, inl, inr, Bool, true, false, List, [], ◌∷◌, All, if◌then◌else◌, Bool-cases,
}
use bbench.Base.Float.{Float}
use bbench.Runs.Sorting.{Irreflexive, Transitive}
use bbench.Report.Stats.{Sums, sums_loop, compute_stats}

module _ {ℓ} {D : Type 0} {A : Type ℓ} (before : D → D → Bool) (f : A → D) where
  -- The accumulator of one extreme value.
  abbrev extreme : List A → D → D
  extreme [] m = m
  extreme (a ∷ xs) m = extreme xs (if before (f a) m then f a else m)

  -- `v` is the value of some item.
  abbrev pub IsValue : D → List A → Type 0
  IsValue v [] = ⊥
  IsValue v (a ∷ xs) = (f a ≡ v) ⊎ IsValue v xs

  extreme-IsValue : (xs : List A) (m v : D) → extreme xs m ≡ v → (v ≡ m) ⊎ IsValue v xs
  extreme-IsValue [] m v q = inl (sym q)
  extreme-IsValue (a ∷ xs) m v q = elim (Bool-cases (before (f a) m)) [
    | inl nearer ↦ elim (extreme-IsValue xs (f a) v (rw nearer at q)) [
      | inl same ↦ inr (inl (sym same))
      | inr later ↦ inr (inr later)
    ]
    | inr other ↦ elim (extreme-IsValue xs m v (rw other at q)) [
      | inl same ↦ inl same
      | inr later ↦ inr (inr later)
    ]
  ]

  module _ (irreflexive : Irreflexive before) (transitive : Transitive before) where
    beyond :
        (u m start : D)
        → (m ≡ start) ⊎ (before m start ≡ true)
        → before u start ≡ false
        → before u m ≡ false
    beyond u m start h k = elim (Bool-cases (before u m)) [
      | inr um ↦ um
      | inl um ↦ elim h [
        | inl same ↦ absurd cc
        | inr nearer ↦ let q = transitive u m start um nearer in absurd cc
      ]
    ]

    extreme_nearest :
        (xs : List A) (m v : D)
        → extreme xs m ≡ v
        → All (λ a. before (f a) v ≡ false) xs × ((v ≡ m) ⊎ (before v m ≡ true))
    extreme_nearest [] m v q = (tt, inl (sym q))
    extreme_nearest (a ∷ xs) m v q = elim (Bool-cases (before (f a) m)) [
      | inl nearer ↦
          let (rest, way) = extreme_nearest xs (f a) v (rw nearer at q) in
          (
            (beyond (f a) v (f a) way (irreflexive (f a)), rest),
            elim way [
              | inl same ↦ inr (rw same nearer)
              | inr further ↦ inr (transitive _ _ _ further nearer)
            ],
          )
      | inr other ↦
          let (rest, way) = extreme_nearest xs m v (rw other at q) in
          ((beyond (f a) v m way other, rest), way)
    ]

module _ {ℓ} (fl : Float) {A : Type ℓ} (f : A → fl.Double) where
  open fl use {Double, of_ℕ, less}

  sums_loop-extreme :
      (xs : List A) (s : Sums fl)
      → (extreme less f xs s.least ≡ (sums_loop fl f xs s).least)
        × (extreme (λ a b. less b a) f xs s.greatest ≡ (sums_loop fl f xs s).greatest)
  unfolding sums_loop
  sums_loop-extreme [] s = (refl, refl)
  sums_loop-extreme (a ∷ xs) s = sums_loop-extreme xs _

  starting-IsValue :
      (before : Double → Double → Bool) (first : A) (rest : List A) (v : Double)
      → (v ≡ f first) ⊎ IsValue before f v (first ∷ rest)
      → IsValue before f v (first ∷ rest)
  starting-IsValue before first rest v (inl q) = inl (sym q)
  starting-IsValue before first rest v (inr h) = h

  -- Where `<` on doubles is irreflexive and transitive, NaN included, the `mn` of at least one run is
  -- the value of one of them, and none has a smaller value; the `mx` is one too, and none has a
  -- greater value.
  pub compute_stats-IsValue :
      Irreflexive less
      → Transitive less
      → (first : A) (rest : List A)
      → let runs = first ∷ rest in
        let s = compute_stats fl f runs in
        (All (λ a. less (f a) s.mn ≡ false) runs × IsValue less f s.mn runs)
        × (All (λ a. less s.mx (f a) ≡ false) runs × IsValue less f s.mx runs)
  unfolding compute_stats
  compute_stats-IsValue irr tra first rest =
      let runs = first ∷ rest in
      let more : Double → Double → Bool = λ a b. less b a in
      let v = f first in
      let (q, r) = sums_loop-extreme runs (record { sum = of_ℕ 0; least = v; greatest = v }) in
      let (below, _) = extreme_nearest less f irr tra runs v _ q in
      let (above, _) = extreme_nearest more f irr (λ a b c h k. tra c b a k h) runs v _ r in
      (
        (below, starting-IsValue less first rest _ (extreme-IsValue less f runs v _ q)),
        (above, starting-IsValue more first rest _ (extreme-IsValue more f runs v _ r)),
      )
