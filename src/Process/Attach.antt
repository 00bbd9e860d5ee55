-- ===== src/Process/Attach.antt =====
-- `process_attach`: in which order the parent attaches, releases and gives the pipe back.
use bbench.Base.{ℕ, ◌+◌, ◌≡◌, ◌≢◌, refl, true, false, [], ◌∷◌, arith, Bool-cases, inl, inr}
use bbench.Base.Int.{ℤ, pos, negsuc, is_negative, ◌==ℤ◌}
use bbench.Base.Text.{CString}
use bbench.Perf.Sys.{Os, World, pipe2, fork, close, write, syscall}
use bbench.Perf.KernelClock.Balance.{
  is_descriptor, opens_entry, Balanced, ReturnsInt, syscall-moves,
}
use bbench.Process.{left, hung, process_attach, attach_parent, close_both}

module _ (os : Os) (ints : ReturnsInt os) (n : ℕ) where
  pipe2_opened :
      (from to r : ℤ)
      → is_negative r ≡ false
      → opens_entry n (pipe2 from to) r ≡ is_descriptor n from + is_descriptor n to
  pipe2_opened from to (pos r) h = refl
  pipe2_opened from to (negsuc r) h = cc

  pipe2_failed_opened : (from to r : ℤ) → is_negative r ≡ true → opens_entry n (pipe2 from to) r ≡ 0
  pipe2_failed_opened from to (pos r) h = cc
  pipe2_failed_opened from to (negsuc r) h = refl

  close_both-closes :
      (from to : ℤ) (held : ℕ) (w : World)
      → Balanced n
          (is_descriptor n from + is_descriptor n to + held)
          w.log
          held
          (close_both os from to w).log
  unfolding close_both
  close_both-closes from to held w =
      let w1 : World = (syscall os (close from) w).1 in
      let first = syscall-moves os ints n (close from) (is_descriptor n to + held) w in
      let second = syscall-moves os ints n (close to) held w1 in omega arith

  -- An `attach` of the caller's that accounts for its descriptors where it starts from `s`.
  module _ {ℓ} {S : Type ℓ} (attach : ℤ → S → World → S × World) (holds : S → ℕ) where
    abbrev pub Attaches : S → Type 0
    Attaches s =
        (pid : ℤ) (w : World)
        → let (s', w') = attach pid s w in Balanced n (holds s) w.log (holds s') w'.log

    attach_parent-Balanced :
        (pid from to : ℤ) (s : S) (w : World)
        → Attaches s
        → let (s', w') = attach_parent os attach pid from to s w in
          Balanced n (is_descriptor n from + is_descriptor n to + holds s) w.log (holds s') w'.log
    unfolding attach_parent
    attach_parent-Balanced pid from to s w h =
        let w1 : World = (syscall os (close from) w).1 in
        let (s', w2) = attach pid s w1 in
        let w3 : World = (syscall os (write to (b'g' ∷ [])) w2).1 in
        let first = syscall-moves os ints n (close from) (is_descriptor n to + holds s) w in
        let attached = h pid w1 in
        let written = syscall-moves os ints n (write to (b'g' ∷ [])) (holds s') w2 in
        let second = syscall-moves os ints n (close to) (holds s') w3 in omega arith

    -- Whenever `process_attach` ends in the parent, with the child's number or by an exception, the
    -- pipe has been given back: what is held more than before is what the caller's `attach` holds.
    pub process_attach-Balanced :
        (path : CString) (s : S) (w : World)
        → Attaches s
        → (process_attach os path attach s w).0 ≢ left
        → let (_, s', w') = process_attach os path attach s w in
          Balanced n (holds s) w.log (holds s') w'.log
    unfolding process_attach
    process_attach-Balanced path s w h ne =
        let (from, to) = os.pipe w.log in
        let (r, w1) = syscall os (pipe2 from to) w in
        let (pid, w2) = syscall os fork w1 in
        let piping = syscall-moves os ints n (pipe2 from to) (holds s) w in
        let forking = syscall-moves os ints n fork (holds s) w1 in
        elim (Bool-cases (is_negative r)) [
          | inl failed ↦
              let unopened = pipe2_failed_opened from to r failed in rw failed (omega arith)
          | inr piped ↦
              let both = pipe2_opened from to r piped in
              elim (Bool-cases (is_negative pid)) [
                | inl no_fork ↦
                    let closing = close_both-closes from to (holds s) w2 in
                    rw (piped, no_fork) (omega arith)
                | inr forked ↦ elim (Bool-cases (pid ==ℤ pos 0)) [
                  | inl in_child ↦ absurd (ne (rw (piped, forked, in_child)))
                  | inr in_parent ↦
                      let attaching = attach_parent-Balanced pid from to s w2 h in
                      rw (piped, forked, in_parent) (omega arith)
                ]
              ]
        ]

-- No loop of `process_attach` could be cut short: it has none.
pub process_attach-hung {ℓ} :
    {S : Type ℓ} (os : Os) (attach : ℤ → S → World → S × World) (path : CString) (s : S) (w : World)
    → (process_attach os path attach s w).0 ≢ hung
unfolding process_attach
process_attach-hung os attach path s w e =
    let (from, to) = os.pipe w.log in
    let (r, w1) = syscall os (pipe2 from to) w in
    let (pid, _) = syscall os fork w1 in
    elim (Bool-cases (is_negative r)) [
      | inl failed ↦ let ends = rw failed at e in cc
      | inr piped ↦ elim (Bool-cases (is_negative pid)) [
        | inl no_fork ↦ let ends = rw (piped, no_fork) at e in cc
        | inr forked ↦ elim (Bool-cases (pid ==ℤ pos 0)) [
          | inl in_child ↦ let ends = rw (piped, forked, in_child) at e in cc
          | inr in_parent ↦ let ends = rw (piped, forked, in_parent) at e in cc
        ]
      ]
    ]
