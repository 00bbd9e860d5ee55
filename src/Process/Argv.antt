-- ===== src/Process/Argv.antt =====
-- The argument vector that `process` builds.
use mathlib.Core.List.{append_assoc, append-nil}
use bbench.Base.{
  ℕ, zero, suc, ◌≡◌, refl, sym, ◌∙◌, ap, List, [], ◌∷◌, ◌++◌, map, Option, none, some, arith,
  length, length-append,
}
use bbench.Base.Text.{CString}
use bbench.Process.{insert, insert_args, argv_of, strings}

insert-append {ℓ} :
    {A : Type ℓ} (xs : List A) (a z : A) (i : ℕ)
    → i ≡ length xs
    → insert i a (xs ++ z ∷ []) ≡ xs ++ a ∷ z ∷ []
unfolding insert
insert-append [] a z zero h = refl
insert-append [] a z (suc i) h = absurd (omega arith)
insert-append (x ∷ xs) a z zero h = absurd (omega arith)
insert-append (x ∷ xs) a z (suc i) h = ap (◌∷◌ x) (insert-append xs a z i (omega arith))

insert_args-append :
    (args : List CString) (xs : List (Option CString))
    → insert_args args (xs ++ none ∷ []) ≡ xs ++ map some args ++ none ∷ []
unfolding insert_args
insert_args-append [] xs = rw append-nil
insert_args-append (a ∷ args) xs =
    ap (insert_args args) (
      insert-append xs (some a) none _ (omega (arith, length-append xs (none ∷ [])))
      ∙ sym (append_assoc xs (some a ∷ []) (none ∷ [])))
    ∙ insert_args-append args (xs ++ some a ∷ [])
    ∙ ap (λ ys. ys ++ none ∷ []) (append_assoc xs (some a ∷ []) (map some args))

strings-map : (args : List CString) → strings (map some args ++ none ∷ []) ≡ args
strings-map [] = refl
strings-map (a ∷ args) = ap (◌∷◌ a) (strings-map args)

-- Whatever the path and the arguments, the vector is the path, the arguments in their order and one
-- null pointer at the end, so that the program is started with exactly those arguments.
pub argv_of-strings :
    (t : CString) (args : List CString)
    → (argv_of t args ≡ some t ∷ (map some args ++ none ∷ []))
      × (strings (argv_of t args) ≡ t ∷ args)
unfolding argv_of
argv_of-strings t args =
    let built : argv_of t args ≡ some t ∷ (map some args ++ none ∷ []) =
      insert_args-append args (some t ∷ []) in
    (built, ap strings built ∙ ap (◌∷◌ t) (strings-map args))
