-- ===== src/Report/Sink/Balance.antt =====
-- Descriptors of a sink, and the order of what it writes.
use bbench.Base.{
  ℕ, ◌≡◌, refl, Bool, true, false, inl, inr, List, [], ◌∷◌, ◌++◌, Bool-cases, arith, if◌then◌else◌,
  map,
}
use bbench.Base.Int.{ℤ, pos, negsuc, is_negative}
use bbench.Base.Float.{Float}
use bbench.Base.Text.{CString}
use bbench.Perf.Sys.{Os, World, open_file, close, write, syscall}
use bbench.Perf.KernelClock.Balance.{
  is_descriptor, Balanced, ReturnsInt, Balanced-trans, syscall-Balanced, syscall-moves,
}
use bbench.Report.Sink.{Item, Printer, Sink, file_sink, close_sink, emit, bytes_of, emit_items}

-- How often a sink holds descriptor `n`.
abbrev pub sink_holds : ℕ → Sink → ℕ
sink_holds n out = if out.owned then is_descriptor n out.fd else 0

-- The world behind these writes to a descriptor, one after the other.
abbrev pub after_writes : Os → ℤ → List CString → World → World
after_writes os fd [] w = w
after_writes os fd (bytes ∷ more) w = after_writes os fd more (syscall os (write fd bytes) w).1

module _ {fl : Float} (pr : Printer fl) (os : Os) where
  -- Two reports in turn are one.
  pub emit_items-append :
      (out : Sink) (a b : List (Item fl)) (w : World)
      → emit_items pr os out b (emit_items pr os out a w) ≡ emit_items pr os out (a ++ b) w
  unfolding emit_items
  emit_items-append out [] b w = refl
  emit_items-append out (i ∷ a) b w = emit_items-append out a b _

  -- What a sink that is open writes is the bytes of the items, each in one call.
  pub emit_items-after_writes :
      (out : Sink) (items : List (Item fl)) (w : World)
      → is_negative out.fd ≡ false
      → emit_items pr os out items w ≡ after_writes os out.fd (map (bytes_of pr) items) w
  unfolding emit_items emit
  emit_items-after_writes out [] w h = refl
  emit_items-after_writes out (i ∷ items) w h = rw h (emit_items-after_writes out items _ h)

  module _ (ints : ReturnsInt os) (n : ℕ) where
    emit-Balanced :
        (out : Sink) (bytes : CString) (held : ℕ) (w : World)
        → Balanced n held w.log held (emit os out bytes w).log
    unfolding emit
    emit-Balanced out bytes held w = elim (Bool-cases (is_negative out.fd)) [
      | inl shut ↦ rw shut
      | inr open_ ↦ rw open_ (syscall-Balanced os ints n _ held w (λ s. refl) refl)
    ]

    pub emit_items-Balanced :
        (out : Sink) (items : List (Item fl)) (held : ℕ) (w : World)
        → Balanced n held w.log held (emit_items pr os out items w).log
    unfolding emit_items
    emit_items-Balanced out [] held w = refl
    emit_items-Balanced out (i ∷ items) held w =
        Balanced-trans os ints n held held held _ _ _ (emit-Balanced out (bytes_of pr i) held w)
          (emit_items-Balanced out items held _)

module _ (os : Os) (ints : ReturnsInt os) (n : ℕ) where
  pub file_sink-Balanced :
      (path : CString) (w : World)
      → let (out, w1) = file_sink os path w in Balanced n 0 w.log (sink_holds n out) w1.log
  unfolding file_sink
  file_sink-Balanced path w = omega (arith, syscall-moves os ints n (open_file path) 0 w)

  close_sink-fields :
      (fd : ℤ) (owned : Bool) (w : World)
      → let out : Sink = record { fd = fd; owned = owned } in
        Balanced n (sink_holds n out) w.log 0 (close_sink os out w).log
  unfolding close_sink
  close_sink-fields (pos k) true w = omega (arith, syscall-moves os ints n (close (pos k)) 0 w)
  close_sink-fields (negsuc k) true w =
      ground (arith, syscall-moves os ints n (close (negsuc k)) 0 w)
  close_sink-fields _ false w = refl

  pub close_sink-Balanced :
      (out : Sink) (w : World) → Balanced n (sink_holds n out) w.log 0 (close_sink os out w).log
  close_sink-Balanced out w = close_sink-fields out.fd out.owned w
