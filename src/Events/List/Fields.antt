-- ===== src/Events/List/Fields.antt =====
-- What `parse_event_list` makes of a list of names: each is looked up whole.
use bbench.Base.{
  ◌<◌, ◌≡◌, refl, sym, ◌∙◌, ap, inl, inr, Bool, true, false, ◌&&◌, Option, List, [], ◌∷◌, ◌++◌,
  none, some, arith, length, ltb, All, Bool-cases, ltb→lt,
}
use mathlib.Core.List.{append-nil, append_assoc}
use bbench.Base.Text.{CString, Micron}
use bbench.Base.Buffer.{NoComma, join, fill, length-fill, fill_fits}
use bbench.Perf.Abi.{PerfAbi}
use bbench.Events.Table.{EventDef, lookup_event}
use bbench.Events.Table.Names.{lookup_event_long}
use bbench.Events.List.{Listed, add_found, flush, list_loop, parse_event_list}

abbrev pub is_some : Option EventDef → Bool
is_some none = false
is_some (some e) = true

abbrev pub at_most_one : Option EventDef → List EventDef
at_most_one none = []
at_most_one (some e) = e ∷ []

module _ ⦃m : Micron⦄ (abi : PerfAbi) where
  -- The rows that the names stand for, in order. An empty name stands for none.
  abbrev pub rows_of : List CString → List EventDef
  rows_of [] = []
  rows_of ([] ∷ ns) = rows_of ns
  rows_of ((c ∷ cs) ∷ ns) = at_most_one (lookup_event abi (some (c ∷ cs))) ++ rows_of ns

  -- Whether each name is known. An empty name counts as known.
  abbrev pub all_known : List CString → Bool
  all_known [] = true
  all_known ([] ∷ ns) = all_known ns
  all_known ((c ∷ cs) ∷ ns) = is_some (lookup_event abi (some (c ∷ cs))) && all_known ns

  list_loop-fill :
      (n rest buf : CString) (r : Listed)
      → NoComma n
      → list_loop abi (n ++ rest) buf r ≡ list_loop abi rest (fill buf n) r
  unfolding list_loop
  list_loop-fill [] rest buf r h = refl
  list_loop-fill (c ∷ n) rest buf r h = rw h.0 (list_loop-fill n rest _ r h.1)

  -- A name too long for the table is not found, whichever it is.
  flush_long : (n : CString) (r : Listed) → 25 < length n → flush abi n r ≡ add_found abi none r
  unfolding flush
  flush_long [] r h = absurd (omega arith)
  flush_long (c ∷ cs) r h = rw (lookup_event_long abi (c ∷ cs) h)

  -- Cutting a name to the buffer does not change what is found.
  flush-fill : (n : CString) (r : Listed) → flush abi (fill [] n) r ≡ flush abi n r
  flush-fill n r = elim (Bool-cases (ltb 63 (length n))) [
    | inl long ↦
        flush_long (fill [] n) r
          (omega (arith, length-fill [] n (omega arith) (omega (arith, ltb→lt 63 (length n) long))))
        ∙ sym (flush_long n r (omega (arith, ltb→lt 63 (length n) long)))
    | inr short ↦ rw (fill_fits [] n (ground arith))
  ]

  list_loop_end : (buf : CString) (r : Listed) → list_loop abi [] buf r ≡ flush abi buf r
  unfolding list_loop
  list_loop_end buf r = refl

  list_loop_comma :
      (p buf : CString) (r : Listed)
      → list_loop abi (b',' ∷ p) buf r ≡ list_loop abi p [] (flush abi buf r)
  unfolding list_loop
  list_loop_comma p buf r = refl

  -- What the names add to a result.
  abbrev look_up_all : List CString → Listed → Listed
  look_up_all ns r = record { out = r.out ++ rows_of ns; all_ok = r.all_ok && all_known ns }

  add_found-fields :
      (o : Option EventDef) (rows : List EventDef) (known : Bool) (r : Listed)
      → ((add_found abi o r).out ++ rows ≡ r.out ++ (at_most_one o ++ rows))
        × (((add_found abi o r).all_ok && known) ≡ (r.all_ok && (is_some o && known)))
  add_found-fields none rows known r = (refl, ground arith)
  add_found-fields (some e) rows known r = (append_assoc r.out (e ∷ []) rows, refl)

  look_up_all-flush :
      (n : CString) (ns : List CString) (r : Listed)
      → look_up_all ns (flush abi n r) ≡ look_up_all (n ∷ ns) r
  unfolding flush
  look_up_all-flush [] ns r = refl
  look_up_all-flush (c ∷ n) ns r =
      let (rows, known) =
        add_found-fields (lookup_event abi (some (c ∷ n))) (rows_of ns) (all_known ns) r in
      rw (rows, known)

  and_true : (b : Bool) → (b && true) ≡ b
  and_true b = ground arith

  look_up_all_none : (r : Listed) → look_up_all [] r ≡ r
  look_up_all_none r = rw (append-nil r.out, and_true r.all_ok)

  list_loop-join :
      (ns : List CString) (r : Listed)
      → All NoComma ns
      → list_loop abi (join ns) [] r ≡ look_up_all ns r
  list_loop-join [] r h = list_loop_end [] r ∙ sym (look_up_all_none _) ∙ look_up_all-flush [] [] r
  list_loop-join (n ∷ []) r h =
      ap (λ (t : CString). list_loop abi t [] r) (sym (append-nil n))
      ∙ list_loop-fill n [] [] r h.0
      ∙ list_loop_end (fill [] n) r
      ∙ flush-fill n r
      ∙ sym (look_up_all_none _)
      ∙ look_up_all-flush n [] r
  list_loop-join (n ∷ k ∷ ns) r h =
      list_loop-fill n (b',' ∷ join (k ∷ ns)) [] r h.0
      ∙ list_loop_comma (join (k ∷ ns)) (fill [] n) r
      ∙ ap (list_loop abi (join (k ∷ ns)) []) (flush-fill n r)
      ∙ list_loop-join (k ∷ ns) (flush abi n r) h.1
      ∙ look_up_all-flush n (k ∷ ns) r

  -- For every list of names without commas, joined by commas: the rows that the names stand for are
  -- appended, each found under its full length (also beyond the 64 bytes of the buffer) and in the
  -- order of the names, and the result is true exactly if each name that is not empty is known.
  pub parse_event_list-join :
      (ns : List CString) (out : List EventDef)
      → All NoComma ns
      → let r = parse_event_list abi (some (join ns)) out in
        (r.out ≡ out ++ rows_of ns) × (r.all_ok ≡ all_known ns)
  unfolding parse_event_list
  parse_event_list-join ns out h =
      let whole = list_loop-join ns (record { out = out; all_ok = true }) h in
      (ap (λ (r : Listed). r.out) whole, ap (λ (r : Listed). r.all_ok) whole)
