-- ===== src/Base/Outcome.antt =====
-- What an action comes to: a value, or an error, with which the chain rolls the whole
-- transaction back.
use mathlib.Core.Path.{◌≡◌, refl, subst, sym}
use mathlib.Core.Logic.{◌⊎◌, inl, inr}
use mathlib.Core.Bool.{Bool, true, false}
use mathlib.Core.Option.{Option, none, some}

pub data Result (E A : Type 0) : Type 0 where
  ok : A → Result E A
  err : E → Result E A

infixl 5 ◌>>=◌ ◌>>◌
abbrev pub ◌>>=◌ : {E A B : Type 0} → Result E A → (A → Result E B) → Result E B
err e >>= next = err e
ok a >>= next = next a

abbrev pub ◌>>◌ : {E B : Type 0} → Result E (Unit {0}) → Result E B → Result E B
err e >> next = err e
ok done >> next = next

-- `CHECK(cond, e)`: the action is aborted unless the condition holds.
abbrev pub check : {E : Type 0} → Bool → E → Result E (Unit {0})
check true e = ok tt
check false e = err e

abbrev pub or_abort : {E A : Type 0} → Option A → E → Result E A
or_abort none e = err e
or_abort (some a) e = ok a

pub >>=-eq-ok :
    {E A B : Type 0} (r : Result E A) (next : A → Result E B) {b : B}
    → (r >>= next) ≡ ok b
    → (a : A) × (r ≡ ok a) × (next a ≡ ok b)
>>=-eq-ok (err e) next h = cc
>>=-eq-ok (ok a) next h = (a, refl, h)

pub check-eq-ok : {E : Type 0} (b : Bool) (e : E) {u : Unit {0}} → check b e ≡ ok u → b ≡ true
check-eq-ok true e h = refl
check-eq-ok false e h = cc

pub or_abort-eq-ok :
    {E A : Type 0} (o : Option A) (e : E) {a : A} → or_abort o e ≡ ok a → o ≡ some a
or_abort-eq-ok none e h = cc
or_abort-eq-ok (some x) e h = cc

-- What holds of a result where there is one.
abbrev pub OnOk : {E A : Type 0} → (A → Type 0) → Result E A → Type 0
OnOk P (ok a) = P a
OnOk P (err e) = Unit

pub OnOk-intro :
    {E A : Type 0} (P : A → Type 0) (r : Result E A) → ((a : A) → r ≡ ok a → P a) → OnOk P r
OnOk-intro P (ok a) h = h a refl
OnOk-intro P (err e) h = tt

pub OnOk_apply :
    {E A : Type 0} (P : A → Type 0) (r : Result E A) {a : A} → OnOk P r → r ≡ ok a → P a
OnOk_apply P r h e = subst (OnOk P) e h

pub OnOk-intro_eq :
    {E A : Type 0} (P : A → Type 0) (r : Result E A) {a : A} → r ≡ ok a → P a → OnOk P r
OnOk-intro_eq P r e p = subst (OnOk P) (sym e) p

pub OnOk-map :
    {E A : Type 0} (P Q : A → Type 0) (r : Result E A) → ((a : A) → P a → Q a) → OnOk P r → OnOk Q r
OnOk-map P Q (ok a) h p = h a p
OnOk-map P Q (err e) h p = tt

pub OnOk-and :
    {E A : Type 0} (P Q : A → Type 0) (r : Result E A)
    → OnOk P r
    → OnOk Q r
    → OnOk (λ a. P a × Q a) r
OnOk-and P Q (ok a) p q = (p, q)
OnOk-and P Q (err e) p q = tt

pub OnOk-bind :
    {E A B : Type 0} (P : A → Type 0) (Q : B → Type 0) (m : Result E A) (f : A → Result E B)
    → OnOk P m
    → ((a : A) → P a → OnOk Q (f a))
    → OnOk Q (m >>= f)
OnOk-bind P Q (ok a) f p h = h a p
OnOk-bind P Q (err e) f p h = tt

pub Result-cases :
    {E A : Type 0} (r : Result E A) → ((a : A) × (r ≡ ok a)) ⊎ ((e : E) × (r ≡ err e))
Result-cases (ok a) = inl (a, refl)
Result-cases (err e) = inr (e, refl)

-- A failed call is rolled back.
abbrev pub after : {E A : Type 0} → A → Result E A → A
after a (ok b) = b
after a (err e) = a

pub after_holds :
    {E A : Type 0} (P : A → Type 0) (a : A) (r : Result E A) → P a → OnOk P r → P (after a r)
after_holds P a (ok b) h q = q
after_holds P a (err e) h q = h
