-- ===== src/Cargs/Parser/RoundTrip.antt =====
-- A command line of keys with values, switches and words, and what `general_parse_np` makes of it.
use mathlib.Core.List.{append_assoc}
use bbench.Base.{
  ℕ, ◌+◌, ◌<◌, ◌≤◌, ◌≡◌, ◌≢◌, refl, sym, ap, ◌∙◌, Bool, false, List, [], ◌∷◌, ◌++◌, length,
  length-append, ltb, All, arith,
}
use bbench.Base.Text.{CString, Micron}
use bbench.Cargs.Parser.{
  cpath, ckey, is_accepts, Packet, blank, FixedString, ParamPacket, modify, add_key, set_type,
  max_length, cstring, round_np, loop_np, general_parse_np,
}
use bbench.Cargs.Parser.Rounds.{
  Argument, pair, switch, word, render, packets, blanks, Fits, append_cstr_fresh, round_key,
  round_switch, round_word, round_value,
}

module _ ⦃m : Micron⦄ (fs : FixedString) where
  -- A round that fills the place behind `prev`, and the rest of the loop.
  onward :
      (done : List Packet) (prev p : Packet) (arg : CString) (args : List CString)
      (rest after : List Packet) (i : ℕ)
      → round_np fs i arg (done ++ prev ∷ blank ∷ rest) ≡ done ++ prev ∷ p ∷ rest
      → loop_np fs (i + 1) args ((done ++ prev ∷ []) ++ p ∷ rest) ≡ (done ++ prev ∷ []) ++ p ∷ after
      → loop_np fs i (arg ∷ args) (done ++ prev ∷ blank ∷ rest) ≡ done ++ prev ∷ p ∷ after
  unfolding loop_np
  onward done prev p arg args rest after i h k =
      ap (loop_np fs (i + 1) args) (h ∙ sym (append_assoc done (prev ∷ []) (p ∷ rest)))
      ∙ k
      ∙ append_assoc done (prev ∷ []) (p ∷ after)

  loop_np-packets :
      (items : List Argument) (done : List Packet) (prev : Packet) (tail : List Packet) (i : ℕ)
      → i ≡ length done + 1
      → is_accepts prev.type ckey ≡ false
      → All (Fits fs.capacity) items
      → loop_np fs i (render items) (done ++ prev ∷ blanks (render items) tail)
        ≡ done ++ prev ∷ (packets items ++ tail)
  unfolding loop_np
  loop_np-packets [] done prev tail i at_ other h = refl
  loop_np-packets (word v ∷ items) done prev tail i at_ other (here, h) =
      let rest = blanks (render items) tail in
      onward done prev _ v (render items) rest _ i (round_word fs done prev rest i at_ v here other)
        (loop_np-packets items (done ++ prev ∷ []) _ tail (i + 1)
          (omega (arith, length-append done (prev ∷ []))) refl h)
  loop_np-packets (switch p ∷ items) done prev tail i at_ other ((full, bare, short, room), h) =
      let rest = blanks (render items) tail in
      onward done prev _ (b'-' ∷ p) (render items) rest _ i
        (round_switch fs done prev rest i at_ p full bare short room)
        (loop_np-packets items (done ++ prev ∷ []) _ tail (i + 1)
          (omega (arith, length-append done (prev ∷ []))) refl h)
  loop_np-packets (pair k v ∷ items) done prev tail i at_ other
        (((full, bare, short, room), here), h) =
      let rest = blanks (render items) tail in
      let after = packets items ++ tail in
      let keyed : Packet = record { key = k; data_ = []; type = ckey } in
      let valued : Packet = record { key = k; data_ = v; type = cstring } in
      let done1 = done ++ prev ∷ [] in
      let next = loop_np fs (i + 1 + 1) (render items) in
      let one : i + 1 ≡ length done1 + 1 = omega (arith, length-append done (prev ∷ [])) in
      let two : i + 1 + 1 ≡ length (done1 ++ valued ∷ []) + 1 =
        omega (arith, one, length-append done1 (valued ∷ [])) in
      ap (λ ps. next (round_np fs (i + 1) v ps))
        (round_key fs done prev (blank ∷ rest) i at_ k full bare short room
          ∙ sym (append_assoc done (prev ∷ []) (keyed ∷ blank ∷ rest)))
      ∙ ap next (
          round_value fs done1 rest (i + 1) k v one here
          ∙ sym (append_assoc done1 (valued ∷ []) (blank ∷ rest)))
      ∙ loop_np-packets items (done1 ++ valued ∷ []) blank tail (i + 1 + 1) two refl h
      ∙ append_assoc done1 (valued ∷ []) (blank ∷ after)
      ∙ append_assoc done (prev ∷ []) (valued ∷ blank ∷ after)

  -- The loop, where there is an argument and no more than the array has places.
  parse_args :
      (parameters : List ParamPacket) (global : Bool) (path : CString) (args : List CString)
      (array : List Packet)
      → args ≢ []
      → length args < 32
      → (general_parse_np fs parameters global (path ∷ args) array).args
        ≡ loop_np fs 1 args (modify 0 (λ p. set_type fs cpath (add_key fs path p)) array)
  unfolding general_parse_np
  parse_args parameters global path [] array h k = absurd (h refl)
  parse_args parameters global path (arg ∷ rest) array h k =
      let few : ltb max_length (2 + length rest) ≡ false = ground arith in rw few

  render_some : (item : Argument) (items : List Argument) → render (item ∷ items) ≢ []
  render_some (pair k v) items = λ e. cc
  render_some (switch p) items = λ e. cc
  render_some (word v) items = λ e. cc

  -- On a fresh array, a command line of at most 31 arguments behind the path, written as keys with
  -- values, switches and words that fit, is parsed back: a key holds its value, a switch stands for
  -- itself, a word is an operand, each in its place and nothing else.
  pub general_parse_np-render :
      (parameters : List ParamPacket) (global : Bool) (path : CString) (item : Argument)
      (items : List Argument) (tail : List Packet)
      → length path ≤ fs.capacity
      → All (Fits fs.capacity) (item ∷ items)
      → length (render (item ∷ items)) < 32
      → let args = render (item ∷ items) in
        (general_parse_np fs parameters global (path ∷ args) (blank ∷ blanks args tail)).args
        ≡ record { key = path; data_ = []; type = cpath } ∷ (packets (item ∷ items) ++ tail)
  general_parse_np-render parameters global path item items tail room fits few =
      let args = render (item ∷ items) in
      let first : Packet = record { key = path; data_ = []; type = cpath } in
      parse_args parameters global path args (blank ∷ blanks args tail) (render_some item items) few
      ∙ rw (append_cstr_fresh fs path room)
          (loop_np-packets (item ∷ items) [] first tail 1 (omega arith) refl fits)
