-- ===== src/Cargs/Parser/Rounds.antt =====
-- The rounds of `general_parse_np` on a key, its value, a switch and a word.
use bbench.Base.{
  ℕ, zero, suc, ◌+◌, ◌-◌, ◌≤◌, ◌≡◌, refl, sym, ap, ◌∙◌, false, inl, inr, List, [], ◌∷◌, ◌++◌, some,
  length, length-append, ltb, get_elem?, arith, Bool-cases, if◌then◌else◌, lt→ltb,
}
use mathlib.Core.List.{append-nil, append_assoc}
use bbench.Base.Text.{CString, Micron}
use bbench.Cargs.Text.{flag, param, empty, trim, flag_loop}
use bbench.Cargs.Text.Dashes.{dashes, flag-trim}
use bbench.Cargs.Parser.{
  czero, cparam, coperand, ckey, cstring, is_accepts, Packet, blank, FixedString, modify,
  append_cstr, add_key, add_data, set_type, max_buffer, round_np,
}

pub data Argument : Type 0 where
  pair : CString → CString → Argument
  switch : CString → Argument
  word : CString → Argument

abbrev pub render : List Argument → List CString
render [] = []
render (pair k v ∷ items) = (b'-' ∷ b'-' ∷ k) ∷ v ∷ render items
render (switch p ∷ items) = (b'-' ∷ p) ∷ render items
render (word v ∷ items) = v ∷ render items

-- A value gets the place of its key, and its own place stays blank.
abbrev pub packets : List Argument → List Packet
packets [] = []
packets (pair k v ∷ items) = record { key = k; data_ = v; type = cstring } ∷ blank ∷ packets items
packets (switch p ∷ items) = record { key = p; data_ = []; type = cparam } ∷ packets items
packets (word v ∷ items) = record { key = []; data_ = v; type = coperand } ∷ packets items

-- A blank place for each argument, in front of the others.
abbrev pub blanks : List CString → List Packet → List Packet
blanks [] rest = rest
blanks (a ∷ as') rest = blank ∷ blanks as' rest

-- A word has at most one dash, and not in front. A name is not empty, and a switch has no further
-- dash. All have room.
abbrev pub IsWord : ℕ → CString → Type 0
IsWord capacity v = (dashes v ≤ 1) × (param v ≡ false) × (length v ≤ 127) × (length v ≤ capacity)

abbrev pub Fits : ℕ → Argument → Type 0
Fits capacity (pair k v) =
    ((empty k ≡ false) × (param k ≡ false) × (length k ≤ 125) × (length k ≤ capacity))
    × IsWord capacity v
Fits capacity (switch p) =
    (empty p ≡ false) × (dashes p ≡ 0) × (length p ≤ 126) × (length p ≤ capacity)
Fits capacity (word v) = IsWord capacity v

modify_next :
    (done : List Packet) (prev p : Packet) (rest : List Packet) (i : ℕ) (f : Packet → Packet)
    → i ≡ length done + 1
    → modify i f (done ++ prev ∷ p ∷ rest) ≡ done ++ prev ∷ f p ∷ rest
modify_next [] prev p rest i f h = rw h
modify_next (x ∷ done) prev p rest zero f h = absurd (omega arith)
modify_next (x ∷ done) prev p rest (suc i) f h =
    ap (λ ps. x ∷ ps) (modify_next done prev p rest i f (omega arith))

modify_last :
    (done : List Packet) (prev : Packet) (rest : List Packet) (i : ℕ) (f : Packet → Packet)
    → i ≡ length done
    → modify i f (done ++ prev ∷ rest) ≡ done ++ f prev ∷ rest
modify_last [] prev rest i f h = rw h
modify_last (x ∷ done) prev rest zero f h = absurd (omega arith)
modify_last (x ∷ done) prev rest (suc i) f h =
    ap (λ ps. x ∷ ps) (modify_last done prev rest i f (omega arith))

get_elem?_last :
    (done : List Packet) (prev : Packet) (rest : List Packet) (i : ℕ)
    → i ≡ length done
    → get_elem? (done ++ prev ∷ rest) i ≡ some prev
get_elem?_last [] prev rest i h = rw h
get_elem?_last (x ∷ done) prev rest zero h = absurd (omega arith)
get_elem?_last (x ∷ done) prev rest (suc i) h = get_elem?_last done prev rest i (omega arith)

trim_bare : (s : CString) → param s ≡ false → trim s ≡ s
unfolding trim param
trim_bare [] h = refl
trim_bare (c ∷ s) h = rw h

param-dashes : (s : CString) → dashes s ≡ 0 → param s ≡ false
unfolding param
param-dashes [] h = refl
param-dashes (c ∷ s) h = ground arith

module _ ⦃m : Micron⦄ (fs : FixedString) where
  append_cstr_fits :
      (dst src : CString)
      → length dst + length src ≤ fs.capacity
      → append_cstr fs dst src ≡ dst ++ src
  unfolding append_cstr
  append_cstr_fits dst [] h = sym (append-nil dst)
  append_cstr_fits dst (c ∷ src) h =
      rw (fs.push_room dst c (lt→ltb (length dst) fs.capacity (omega arith))) (
        append_cstr_fits (dst ++ c ∷ []) src (omega (arith, length-append dst (c ∷ [])))
        ∙ append_assoc dst (c ∷ []) src)

  pub append_cstr_fresh : (s : CString) → length s ≤ fs.capacity → append_cstr fs [] s ≡ s
  append_cstr_fresh s h = append_cstr_fits [] s (omega arith)

  short_enough : (s : CString) → length s ≤ 127 → ltb max_buffer (m.strlen s) ≡ false
  short_enough s h = rw (m.strlen_length s) (ground arith)

  -- One round, at the place behind `prev`.
  module _ (done : List Packet) (prev : Packet) (rest : List Packet) (i : ℕ)
      (at_ : i ≡ length done + 1) where
    pub round_key :
        (k : CString)
        → empty k ≡ false
        → param k ≡ false
        → length k ≤ 125
        → length k ≤ fs.capacity
        → round_np fs i (b'-' ∷ b'-' ∷ k) (done ++ prev ∷ blank ∷ rest)
          ≡ done ++ prev ∷ record { key = k; data_ = []; type = ckey } ∷ rest
    unfolding round_np flag flag_loop empty trim
    round_key k full bare short room =
        rw (short_enough (b'-' ∷ b'-' ∷ k) (omega arith), full, trim_bare k bare)
          (modify_next done prev blank rest i (λ p. set_type fs ckey (add_key fs k p)) at_
            ∙ rw (append_cstr_fresh k room))

    pub round_switch :
        (p : CString)
        → empty p ≡ false
        → dashes p ≡ 0
        → length p ≤ 126
        → length p ≤ fs.capacity
        → round_np fs i (b'-' ∷ p) (done ++ prev ∷ blank ∷ rest)
          ≡ done ++ prev ∷ record { key = p; data_ = []; type = cparam } ∷ rest
    unfolding round_np empty trim param
    round_switch p full bare short room =
        let (two, _, _) = flag-trim (b'-' ∷ p) in
        let one : flag (b'-' ∷ p) ≡ false = rw two (ground arith) in
        let none_ : param p ≡ false = param-dashes p bare in
        rw (short_enough (b'-' ∷ p) (omega arith), one, full, trim_bare p none_)
          (modify_next done prev blank rest i (λ q. set_type fs cparam (add_key fs p q)) at_
            ∙ rw (append_cstr_fresh p room))

    -- A word is what neither `flag` nor `param` takes.
    round_data :
        (v : CString)
        → IsWord fs.capacity v
        → round_np fs i v (done ++ prev ∷ blank ∷ rest) ≡ (
            if is_accepts prev.type ckey
            then modify i (set_type fs czero) (
                modify
                  (i - 1)
                  (λ p. set_type fs cstring (add_data fs v p))
                  (done ++ prev ∷ blank ∷ rest))
            else modify i
                (λ p. set_type fs coperand (add_data fs v p))
                (done ++ prev ∷ blank ∷ rest))
    unfolding round_np
    round_data v (few, bare, short, room) =
        let plain : flag v ≡ false = rw ((flag-trim v).0) (ground arith) in
        let here = get_elem?_last done prev (blank ∷ rest) (i - 1) (omega arith) in
        elim (Bool-cases (empty v)) [
          | inl none_ ↦ rw (short_enough v short, plain, bare, none_, here)
          | inr some_ ↦ rw (short_enough v short, plain, bare, some_, here)
        ]

    pub round_word :
        (v : CString)
        → IsWord fs.capacity v
        → is_accepts prev.type ckey ≡ false
        → round_np fs i v (done ++ prev ∷ blank ∷ rest)
          ≡ done ++ prev ∷ record { key = []; data_ = v; type = coperand } ∷ rest
    round_word v h other =
        round_data v h
        ∙ rw other (
            modify_next done prev blank rest i (λ p. set_type fs coperand (add_data fs v p)) at_
            ∙ rw (append_cstr_fresh v h.3))

  pub round_value :
      (done rest : List Packet) (i : ℕ) (k v : CString)
      → i ≡ length done + 1
      → IsWord fs.capacity v
      → round_np fs i v (done ++ record { key = k; data_ = []; type = ckey } ∷ blank ∷ rest)
        ≡ done ++ record { key = k; data_ = v; type = cstring } ∷ blank ∷ rest
  round_value done rest i k v at_ h =
      let prev : Packet = record { key = k; data_ = []; type = ckey } in
      let held : Packet = record { key = k; data_ = v; type = cstring } in
      round_data done prev rest i at_ v h
      ∙ ap (modify i (set_type fs czero)) (
          modify_last done prev (blank ∷ rest) (i - 1) (λ p. set_type fs cstring (add_data fs v p))
            (omega arith)
          ∙ rw (append_cstr_fresh v h.3))
      ∙ modify_next done held blank rest i (set_type fs czero) at_
