-- ===== src/Topdown/Agreement.antt =====
-- The three copies of the scaled read: `kernel_clock::read`, `dynamic_event::retrieve` and
-- `__td_event::retrieve_scaled`.
use bbench.Base.{◌≡◌, refl, Bool-cases, inl, inr}
use bbench.Base.Int.{pos, negsuc, ◌==ℤ◌}
use bbench.Base.Float.{Float}
use bbench.Perf.Sys.{Os, World, ReadResult}
use bbench.Perf.KernelClock.{KernelClock, scaled, read_scaled, read_triplet}
use bbench.Events.Dynamic.{DynamicEvent, event_scaled, event_retrieve}
use bbench.Events.Dynamic.Coherent.{IsCoherent}
use bbench.Topdown.{TdEvent, td_scaled, retrieve_scaled}

module _ (fl : Float) (os : Os) where
  event_scaled-scaled : (r : ReadResult) → event_scaled fl os r ≡ scaled fl r
  unfolding event_scaled scaled
  event_scaled-scaled r = refl

  td_scaled-scaled : (r : ReadResult) → td_scaled fl os r ≡ scaled fl r
  unfolding td_scaled scaled
  td_scaled-scaled r = refl

  -- A counter that never ran counts as 0.
  scaled_idle : scaled fl (record { value = 0; time_enabled = 0; time_running = 0 }) ≡ pos 0
  unfolding scaled
  scaled_idle = refl

  -- For events that share a descriptor, or have none, and a dynamic event whose flag `valid` agrees
  -- with it, all three copies of the scaled read return the same number and make the same calls.
  pub event_retrieve-read_scaled :
      (c : KernelClock) (e : DynamicEvent) (t : TdEvent) (w : World)
      → IsCoherent e
      → e.e_fd ≡ c.e_fd
      → t.e_fd ≡ c.e_fd
      → (event_retrieve fl os e w ≡ read_scaled fl os c w)
        × (retrieve_scaled fl os t w ≡ read_scaled fl os c w)
  unfolding event_retrieve retrieve_scaled read_scaled read_triplet
  event_retrieve-read_scaled c e t w coherent same_e same_t =
      elim (Bool-cases (c.e_fd ==ℤ negsuc 0)) [
        | inl closed ↦
            (rw (coherent, same_e, closed, scaled_idle), rw (same_t, closed, scaled_idle))
        | inr open_fd ↦ (
          rw (coherent, same_e, open_fd, event_scaled-scaled),
          rw (same_t, open_fd, td_scaled-scaled),
        )
      ]
