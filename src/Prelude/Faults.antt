-- ===== src/Prelude/Faults.antt =====
-- Code that may run into undefined behaviour, or may never come back: `done` is a return, `fault` an
-- access outside an object, `spent` a loop that has used up the rounds that the model grants it.
pub data Run {ℓ} (A : Type ℓ) : Type ℓ where
  done : A → Run A
  fault : Run A
  spent : Run A

infixl 5 ◌>>=◌ ◌>>◌
abbrev pub ◌>>=◌ {ℓ κ} : {A : Type ℓ} {B : Type κ} → Run A → (A → Run B) → Run B
done a >>= f = f a
fault >>= f = fault
spent >>= f = spent

abbrev ◌>>◌ {ℓ} : {B : Type ℓ} → Run (Unit {0}) → Run B → Run B
m >> k = m >>= λ _. k

-- What a run that comes back gives.
abbrev pub Returns {ℓ κ} : {A : Type ℓ} → (A → Type κ) → Run A → Type κ
Returns P (done a) = P a
Returns P fault = Unit
Returns P spent = Unit

pub Returns->>= {ℓ κ ι} :
    {A : Type ℓ} {B : Type κ} (P : B → Type ι) {f : A → B}
    → ((x : A) → P (f x))
    → (m : Run A) → Returns P (m >>= λ x. done (f x))
Returns->>= P h (done x) = h x
Returns->>= P h fault = tt
Returns->>= P h spent = tt

-- What holds of all that one run gives, and of all that a second gives from there, holds of both.
pub Returns-bind {ℓ κ ι μ} :
    {A : Type ℓ} {B : Type κ} (P : A → Type ι) (Q : B → Type μ) (f : A → Run B) (m : Run A)
    → Returns P m
    → ((x : A) → P x → Returns Q (f x))
    → Returns Q (m >>= f)
Returns-bind P Q f (done x) p h = h x p
Returns-bind P Q f fault p h = tt
Returns-bind P Q f spent p h = tt

pub Returns-map {ℓ κ ι} :
    {A : Type ℓ} (P : A → Type κ) (Q : A → Type ι)
    → ((x : A) → P x → Q x)
    → (m : Run A) → Returns P m
    → Returns Q m
Returns-map P Q h (done x) p = h x p
Returns-map P Q h fault p = tt
Returns-map P Q h spent p = tt
