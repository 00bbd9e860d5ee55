-- ===== src/Base/Buffer.antt =====
-- The buffer of 64 bytes in which `parse_event_list` and `emit_metrics` collect a name, and lists of
-- names that commas join.
use mathlib.Core.List.{append-nil, append_assoc}
use bbench.Base.{
  ℕ, zero, suc, ◌+◌, ◌-◌, ◌≤◌, ◌≡◌, refl, sym, ◌∙◌, inl, inr, false, List, [], ◌∷◌, ◌++◌, arith,
  length, length-append, ltb, ◌==◌, All, if◌then◌else◌, Bool-cases, ltb→lt, lt→ltb,
}
use bbench.Base.Text.{CString}

-- `char buf[64]`, of which one place is kept for the NUL.
abbrev pub buffer_size : ℕ
buffer_size = 64

abbrev pub NoComma : CString → Type 0
NoComma = All (λ c. (c == b',') ≡ false)

abbrev pub join : List CString → CString
join [] = []
join (n ∷ []) = n
join (n ∷ k ∷ ns) = n ++ (b',' ∷ join (k ∷ ns))

-- The buffer behind the bytes `n`.
abbrev pub fill : CString → CString → CString
fill buf [] = buf
fill buf (c ∷ n) = fill (if ltb (length buf) (buffer_size - 1) then buf ++ c ∷ [] else buf) n

pub length-fill :
    (buf n : CString) → length buf ≤ 63 → 63 ≤ length buf + length n → length (fill buf n) ≡ 63
length-fill buf [] h k = omega arith
length-fill buf (c ∷ n) h k = elim (Bool-cases (ltb (length buf) 63)) [
  | inl room ↦ rw room (
      length-fill (buf ++ c ∷ []) n
        (omega (arith, length-append buf (c ∷ []), ltb→lt (length buf) 63 room))
        (omega (arith, length-append buf (c ∷ []))))
  | inr full ↦ rw full (length-fill buf n h (ground arith))
]

pub fill_fits : (buf n : CString) → length buf + length n ≤ 63 → fill buf n ≡ buf ++ n
fill_fits buf [] h = sym (append-nil buf)
fill_fits buf (c ∷ n) h = rw (lt→ltb (length buf) 63 (omega arith)) (
    fill_fits (buf ++ c ∷ []) n (omega (arith, length-append buf (c ∷ [])))
    ∙ append_assoc buf (c ∷ []) n)

-- The first `k` bytes.
abbrev pub take : ℕ → CString → CString
take zero n = []
take (suc k) [] = []
take (suc k) (c ∷ n) = c ∷ take k n

fill_full : (buf n : CString) → ltb (length buf) 63 ≡ false → fill buf n ≡ buf
fill_full buf [] h = refl
fill_full buf (c ∷ n) h = rw h (fill_full buf n h)

fill-append : (k : ℕ) (buf n : CString) → length buf + k ≡ 63 → fill buf n ≡ buf ++ take k n
fill-append zero buf n h = fill_full buf n (ground arith) ∙ sym (append-nil buf)
fill-append (suc k) buf [] h = sym (append-nil buf)
fill-append (suc k) buf (c ∷ n) h = rw (lt→ltb (length buf) 63 (omega arith)) (
    fill-append k (buf ++ c ∷ []) n (omega (arith, length-append buf (c ∷ [])))
    ∙ append_assoc buf (c ∷ []) (take k n))

-- The buffer keeps the first 63 bytes of a name.
pub fill-take : (n : CString) → fill [] n ≡ take 63 n
fill-take n = fill-append 63 [] n (omega arith)
