-- ===== src/Prelude/Transaction.antt =====
-- Code that runs inside a database transaction: a step from a state to a result and the next state.
-- An error carries no state, since the transaction is rolled back.
use mathlib.Core.Path.{◌≡◌, refl}
use mathlib.Core.Bool.{Bool, true, false}
use ispo_shedule_backend.Prelude.Results.{Result, ok, err}

abbrev pub Step : Type 0 → Type 0 → Type 0 → Type 0
Step E S A = S → Result E (A × S)

abbrev pub pure : {E S A : Type 0} → A → Step E S A
pure a s = ok (a, s)

abbrev pub fail : {E S A : Type 0} → E → Step E S A
fail e s = err e

-- Shut, so that a proof takes a chain apart by `and_then-ok` and not by computing it.
unfoldable pub and_then :
    {E S A B : Type 0} → Result E (A × S) → (A → Step E S B) → Result E (B × S)
and_then (ok (a, t)) f = f a t
and_then (err e) f = err e

infixl 5 ◌>>=◌ ◌>>◌
abbrev pub ◌>>=◌ : {E S A B : Type 0} → Step E S A → (A → Step E S B) → Step E S B
◌>>=◌ m f s = and_then (m s) f

abbrev pub ◌>>◌ : {E S B : Type 0} → Step E S (Unit {0}) → Step E S B → Step E S B
m >> k = m >>= λ _. k

-- A pure check inside the transaction.
unfoldable pub lift : {E S A : Type 0} → Result E A → Step E S A
lift (ok a) s = ok (a, s)
lift (err e) s = err e

unfoldable pub reject_if : {E S : Type 0} → Bool → E → Step E S (Unit {0})
reject_if true e s = err e
reject_if false e s = ok (tt, s)

-- What a successful chain did: its first part succeeded, and so did the rest.
pub and_then-ok :
    {E S A B : Type 0} (r : Result E (A × S)) (f : A → Step E S B) {b : B} {u : S}
    → and_then r f ≡ ok (b, u)
    → (a : A) × (t : S) × (r ≡ ok (a, t)) × (f a t ≡ ok (b, u))
unfolding and_then
and_then-ok (ok (a, t)) f h = (a, t, refl, h)
and_then-ok (err e) f h = cc

pub reject_if-ok :
    {E S : Type 0} (bad : Bool) (e : E) (s t : S) {a : Unit {0}}
    → reject_if bad e s ≡ ok (a, t)
    → (bad ≡ false) × (t ≡ s)
unfolding reject_if
reject_if-ok true e s t h = cc
reject_if-ok false e s t h = (refl, cc)

pub lift-ok :
    {E S A : Type 0} (r : Result E A) (s t : S) {a : A}
    → lift r s ≡ ok (a, t)
    → (r ≡ ok a) × (t ≡ s)
unfolding lift
lift-ok (ok b) s t h = (cc, cc)
lift-ok (err e) s t h = cc

pub pure-ok :
    {E S A : Type 0} (a b : A) (s t : S)
    → ◌≡◌ {A = Result E (A × S)} (ok (a, s)) (ok (b, t))
    → (a ≡ b) × (s ≡ t)
pure-ok a b s t h = (cc, cc)

-- Code outside a transaction: a call leaves a state also when it fails.
abbrev pub Call : Type 0 → Type 0 → Type 0 → Type 0
Call E S A = S → Result E A × S

unfoldable pub settled : {E S A : Type 0} → S → Result E (A × S) → Result E A × S
settled s (ok (a, t)) = (ok a, t)
settled s (err e) = (err e, s)

-- A transaction, or a single statement: it fails without a trace.
unfoldable pub atomic : {E S A : Type 0} → Step E S A → Call E S A
unfolding settled
atomic m s = settled s (m s)

unfoldable pub then_call : {E S A B : Type 0} → Result E A × S → (A → Call E S B) → Result E B × S
then_call (ok a, s) f = f a s
then_call (err e, s) f = (err e, s)

pub then_call-ok :
    {E S A B : Type 0} (r : Result E A × S) (f : A → Call E S B) {b : B} {u : S}
    → then_call r f ≡ (ok b, u)
    → (a : A) × (t : S) × (r ≡ (ok a, t)) × (f a t ≡ (ok b, u))
unfolding then_call
then_call-ok (ok a, t) f h = (a, t, refl, h)
then_call-ok (err e, t) f h = cc

settled-ok :
    {E S A : Type 0} (s t : S) (r : Result E (A × S)) {a : A}
    → settled s r ≡ (ok a, t)
    → r ≡ ok (a, t)
unfolding settled
settled-ok s t (ok (b, u)) h = cc
settled-ok s t (err e) h = cc

pub atomic-ok :
    {E S A : Type 0} (m : Step E S A) (s t : S) {a : A} → atomic m s ≡ (ok a, t) → m s ≡ ok (a, t)
unfolding atomic
atomic-ok m s t h = settled-ok s t (m s) h

pub call-ok :
    {E S A : Type 0} (a b : A) (s t : S)
    → ◌≡◌ {A = Result E A × S} (ok a, s) (ok b, t)
    → (a ≡ b) × (s ≡ t)
call-ok a b s t h = (cc, cc)
