-- ===== src/Bench/Calls/Repeat.antt =====
-- `bench_repeat` and `bench` of several functions: how they are related, and how much they return.
use mathlib.Core.Path.{fun_ext}
use bbench.Base.{
  ℕ, zero, suc, ◌+◌, ◌≡◌, refl, ap, List, [], ◌∷◌, ◌++◌, length, length-append, arith,
}
use bbench.Base.Float.{Float}
use bbench.Perf.Sys.{Os, World, realtime_alarm}
use bbench.Perf.SystemClock.{SystemClock}
use bbench.Bench.Run.{and_then, make_clock}
use bbench.Bench.Run.Yields.{Yields, after-Yields}
use bbench.Bench.Calls.{timed, bench_each, bench_all, repeat_loop, bench_repeat}

-- A function `n` times over.
abbrev pub copies {ℓ} : {A : Type ℓ} → ℕ → A → List A
copies zero x = []
copies (suc n) x = x ∷ copies n x

length-copies {ℓ} : {A : Type ℓ} (n : ℕ) (x : A) → length (copies n x) ≡ n
length-copies zero x = refl
length-copies (suc n) x = omega (arith, length-copies n x)

module _ (fl : Float) (os : Os) (elapsed : SystemClock → fl.Double) where
  repeat_loop-bench_each :
      (n : ℕ) (func : World → World) (cl : SystemClock) (results : List fl.Double) (w : World)
      → repeat_loop fl os elapsed n func cl results w
        ≡ bench_each fl os elapsed (copies n func) cl results w
  unfolding repeat_loop bench_each
  repeat_loop-bench_each zero func cl results w = refl
  repeat_loop-bench_each (suc n) func cl results w =
      ap (and_then (timed os realtime_alarm cl func w)) (
        fun_ext (λ cl1.
          fun_ext (λ w1. repeat_loop-bench_each n func cl1 (results ++ elapsed cl1 ∷ []) w1)))

  bench_each-length :
      (funcs : List (World → World)) (n : ℕ) (cl : SystemClock) (results : List fl.Double)
      (w : World)
      → length results + length funcs ≡ n
      → Yields (λ ts. length ts ≡ n) (bench_each fl os elapsed funcs cl results w)
  unfolding bench_each
  bench_each-length [] n cl results w h = omega arith
  bench_each-length (func ∷ funcs) n cl results w h =
      after-Yields (λ ts. length ts ≡ n) (timed os realtime_alarm cl func w) _
        (λ cl1 w1.
          bench_each-length funcs n cl1 (results ++ elapsed cl1 ∷ []) w1
            (omega (arith, length-append results (elapsed cl1 ∷ []))))

  bench_all-length :
      (funcs : List (World → World)) (n : ℕ) (w : World)
      → length funcs ≡ n
      → Yields (λ ts. length ts ≡ n) (bench_all fl os elapsed funcs w)
  unfolding bench_all
  bench_all-length funcs n w h =
      after-Yields (λ ts. length ts ≡ n) (make_clock os w) _
        (λ cl w1. bench_each-length funcs n cl [] w1 (omega arith))

  bench_repeat-copies :
      (n : ℕ) (func : World → World) (w : World)
      → bench_repeat fl os elapsed n func w ≡ bench_all fl os elapsed (copies n func) w
  unfolding bench_all bench_repeat
  bench_repeat-copies n func w =
      ap (and_then (make_clock os w))
        (fun_ext (λ cl. fun_ext (λ w1. repeat_loop-bench_each n func cl [] w1)))

-- `bench` of several functions returns one time for each, where it returns. `bench_repeat` of a
-- function does to the world, throws and returns what `bench` of that many copies of it does, so it
-- returns as many times as it was asked for.
pub bench_repeat-bench_all :
    (fl : Float) (os : Os) (elapsed : SystemClock → fl.Double) (n : ℕ) (func : World → World)
    (funcs : List (World → World)) (w : World)
    → Yields (λ ts. length ts ≡ length funcs) (bench_all fl os elapsed funcs w)
      × (bench_repeat fl os elapsed n func w ≡ bench_all fl os elapsed (copies n func) w)
      × Yields (λ ts. length ts ≡ n) (bench_repeat fl os elapsed n func w)
bench_repeat-bench_all fl os elapsed n func funcs w = (
  bench_all-length fl os elapsed funcs (length funcs) w refl,
  bench_repeat-copies fl os elapsed n func w,
  rw (bench_repeat-copies fl os elapsed n func w)
      (bench_all-length fl os elapsed (copies n func) n w (length-copies n func)),
)
