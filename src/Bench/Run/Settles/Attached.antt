-- ===== src/Bench/Run/Settles/Attached.antt =====
-- Descriptors over `attached`: a run between its attachment and the destructor of its counters.
use bbench.Base.{ℕ, ◌≢◌, refl}
use bbench.Base.Int.{ℤ}
use bbench.Base.Text.{CString}
use bbench.Perf.Sys.{Log, Os, World}
use bbench.Perf.KernelClock.Balance.{Balanced, ReturnsInt}
use bbench.Process.{Outcome, ok, thrown, left, hung, process_attach}
use bbench.Process.Attach.{Attaches, process_attach-Balanced, process_attach-hung}
use bbench.Bench.Run.{and_then, unwind, attached}
use bbench.Bench.Run.Settles.{Settles, Settles-trans, unwind-Settles}

module _ (os : Os) (ints : ReturnsInt os) (n : ℕ) where
  -- A run between its attachment and the destructor of its counters: it has given back what the
  -- counters held before.
  module _ {R S : Type 0} (attach : ℤ → S → World → S × World) (destroy : S → World → World)
      (body : ℤ → S → World → Outcome R × World) (holds : S → ℕ)
      (destroy_lem : (s : S) (w : World) → Balanced n (holds s) w.log 0 (destroy s w).log)
      (body_lem : (pid : ℤ) (s : S) (w : World)
        → Settles os ints n (holds s) w.log (holds s) (body pid s w)) where
    after_attach-Settles :
        (a : ℕ) (log : Log) (o : Outcome ℤ) (s : S) (w : World)
        → (o ≢ left → Balanced n a log (holds s) w.log)
        → o ≢ hung
        → Settles os ints n a log 0 (unwind (destroy s) (and_then (o, w) λ pid w1. body pid s w1))
    unfolding and_then
    after_attach-Settles a log (ok pid) s w h k =
        unwind-Settles os ints n a (holds s) 0 (destroy s) log _ (destroy_lem s)
          (Settles-trans os ints n a (holds s) (holds s) log w _ (h (λ e. cc)) (body_lem pid s w))
    after_attach-Settles a log (thrown e) s w h k =
        unwind-Settles os ints n a (holds s) 0 (destroy s) log (thrown e, w) (destroy_lem s)
          (h (λ e. cc))
    after_attach-Settles a log left s w h k =
        unwind-Settles os ints n a (holds s) 0 (destroy s) log (left, w) (destroy_lem s) tt
    after_attach-Settles a log hung s w h k = absurd (k refl)

    pub attached-Settles :
        (path : CString) (s : S) (w : World)
        → Attaches os ints n attach holds s
        → Settles os ints n (holds s) w.log 0 (attached os attach destroy body path s w)
    unfolding attached
    attached-Settles path s w attach_lem =
        let (o, s1, w1) = process_attach os path attach s w in
        after_attach-Settles (holds s) w.log o s1 w1
          (process_attach-Balanced os ints n attach holds path s w attach_lem)
          (process_attach-hung os attach path s w)
