-- ===== src/Bench/Run/Yields.antt =====
-- What the parts of a run return, where they return.
use bbench.Base.{◌≡◌, refl}
use bbench.Base.Text.{CString}
use bbench.Base.Int.{ℤ}
use bbench.Perf.Sys.{Os, World}
use bbench.Process.{Outcome, ok, thrown, left, hung, process_attach}
use bbench.Bench.Run.{and_then, guarded, unwind, attached}

pub ok_injective : {a b : ℤ} → ok a ≡ ok b → a ≡ b
ok_injective h = cc

-- Whatever a piece of code returns has the property `P`.
abbrev pub Yields {ℓ} : {A : Type ℓ} → (A → Type 0) → Outcome A × World → Type 0
Yields P (ok x, w) = P x
Yields P (thrown e, w) = Unit
Yields P (left, w) = Unit
Yields P (hung, w) = Unit

pub Yields-ok {ℓ} :
    {A : Type ℓ} (P : A → Type 0) (r : Outcome A × World) (x : A) (w : World)
    → Yields P r
    → r ≡ (ok x, w)
    → P x
Yields-ok P r x w h e = rw e at h

pub Yields-imp {ℓ} :
    {A : Type ℓ} (P Q : A → Type 0) (r : Outcome A × World)
    → ((x : A) → P x → Q x)
    → Yields P r
    → Yields Q r
Yields-imp P Q (ok x, w) f h = f x h
Yields-imp P Q (thrown e, w) f h = tt
Yields-imp P Q (left, w) f h = tt
Yields-imp P Q (hung, w) f h = tt

pub and_then-Yields {ℓ} :
    {A B : Type ℓ} (P : A → Type 0) (Q : B → Type 0) (r : Outcome A × World)
    (k : A → World → Outcome B × World)
    → Yields P r
    → ((x : A) (w : World) → P x → Yields Q (k x w))
    → Yields Q (and_then r k)
unfolding and_then
and_then-Yields P Q (ok x, w) k h next = next x w h
and_then-Yields P Q (thrown e, w) k h next = tt
and_then-Yields P Q (left, w) k h next = tt
and_then-Yields P Q (hung, w) k h next = tt

-- Where nothing is asked of what comes before.
pub after-Yields {ℓ} :
    {A B : Type ℓ} (Q : B → Type 0) (r : Outcome A × World) (k : A → World → Outcome B × World)
    → ((x : A) (w : World) → Yields Q (k x w))
    → Yields Q (and_then r k)
unfolding and_then
after-Yields Q (ok x, w) k next = next x w
after-Yields Q (thrown e, w) k next = tt
after-Yields Q (left, w) k next = tt
after-Yields Q (hung, w) k next = tt

pub guarded-Yields {ℓ} :
    {A B : Type ℓ} (Q : B → Type 0) (destroy : World → World) (r : Outcome A × World)
    (k : A → World → Outcome B × World)
    → ((x : A) (w : World) → Yields Q (k x w))
    → Yields Q (guarded destroy r k)
unfolding guarded
guarded-Yields Q destroy (ok x, w) k next = next x w
guarded-Yields Q destroy (thrown e, w) k next = tt
guarded-Yields Q destroy (left, w) k next = tt
guarded-Yields Q destroy (hung, w) k next = tt

unwind-Yields {ℓ} :
    {A : Type ℓ} (Q : A → Type 0) (destroy : World → World) (r : Outcome A × World)
    → Yields Q r
    → Yields Q (unwind destroy r)
unfolding unwind
unwind-Yields Q destroy (ok x, w) h = h
unwind-Yields Q destroy (thrown e, w) h = tt
unwind-Yields Q destroy (left, w) h = tt
unwind-Yields Q destroy (hung, w) h = tt

pub attached-Yields :
    {R S : Type 0} (Q : R → Type 0) (os : Os) (attach : ℤ → S → World → S × World)
    (destroy : S → World → World) (body : ℤ → S → World → Outcome R × World) (path : CString)
    (s : S) (w : World)
    → ((pid : ℤ) (s1 : S) (w1 : World) → Yields Q (body pid s1 w1))
    → Yields Q (attached os attach destroy body path s w)
unfolding attached
attached-Yields Q os attach destroy body path s w h =
    let (o, s1, w1) = process_attach os path attach s w in
    unwind-Yields Q (destroy s1) _ (after-Yields Q (o, w1) _ (λ pid w2. h pid s1 w2))

-- Code in sequence that returned: its first part did.
pub and_then-ok {ℓ} :
    {A B : Type ℓ} (r : Outcome A × World) (k : A → World → Outcome B × World) (y : B) (w' : World)
    → and_then r k ≡ (ok y, w')
    → (x : A) × (w : World) × (r ≡ (ok x, w)) × (k x w ≡ (ok y, w'))
unfolding and_then
and_then-ok (ok x, w) k y w' h = (x, w, refl, h)
and_then-ok (thrown e, w) k y w' h = cc
and_then-ok (left, w) k y w' h = cc
and_then-ok (hung, w) k y w' h = cc
