-- ===== src/Prelude/Results.antt =====
-- Exceptions as values: a call returns, or raises one of the errors of its component.
use mathlib.Core.Path.{◌≡◌, refl}
use mathlib.Core.Bool.{Bool, true, false}
use mathlib.Core.Option.{Option, none, some}
use mathlib.Core.Logic.{◌⊎◌, inl, inr}

pub data Result (E A : Type 0) : Type 0 where
  ok : A → Result E A
  raise : E → Result E A

module _ {E A B : Type 0} where
  infixl 5 ◌>>=◌
  -- The rest of a block runs on what the call before it returned.
  abbrev pub ◌>>=◌ : Result E A → (A → Result E B) → Result E B
  raise e >>= rest = raise e
  ok value >>= rest = rest value

  -- What a call that returned has returned.
  pub >>=-eq-ok :
      (first : Result E A) (rest : A → Result E B) {last : B}
      → first >>= rest ≡ ok last
      → (value : A) × (first ≡ ok value) × (rest value ≡ ok last)
  >>=-eq-ok (raise e) rest h = cc
  >>=-eq-ok (ok value) rest h = (value, refl, h)

infixl 5 ◌>>◌
abbrev pub ◌>>◌ : {E B : Type 0} → Result E (Unit {0}) → Result E B → Result E B
check >> rest = check >>= λ _. rest

-- `if b: raise e`
abbrev pub raise_if : {E : Type 0} → Bool → E → Result E (Unit {0})
raise_if true e = raise e
raise_if false e = ok tt

-- `if x is None: raise e`
abbrev pub or_raise : {E A : Type 0} → Option A → E → Result E A
or_raise none e = raise e
or_raise (some a) e = ok a

-- `except`: another component's error, seen by this one.
abbrev pub map_error : {E F A : Type 0} → (E → F) → Result E A → Result F A
map_error f (ok a) = ok a
map_error f (raise e) = raise (f e)

pub Result-cases :
    {E A : Type 0} (r : Result E A) → ((a : A) × (r ≡ ok a)) ⊎ ((e : E) × (r ≡ raise e))
Result-cases (ok a) = inl (a, refl)
Result-cases (raise e) = inr (e, refl)

pub map_error-eq-ok :
    {E F A : Type 0} (f : E → F) (r : Result E A) {a : A} → map_error f r ≡ ok a → r ≡ ok a
map_error-eq-ok f (ok a) h = cc
map_error-eq-ok f (raise e) h = cc

pub or_raise-eq-ok :
    {E A : Type 0} (o : Option A) (e : E) {a : A} → or_raise o e ≡ ok a → o ≡ some a
or_raise-eq-ok none e h = cc
or_raise-eq-ok (some a) e h = cc

pub ok-injective : {E A : Type 0} {a b : A} → ◌≡◌ {A = Result E A} (ok a) (ok b) → a ≡ b
ok-injective h = cc
