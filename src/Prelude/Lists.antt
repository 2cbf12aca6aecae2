-- ===== src/Prelude/Lists.antt =====
-- Lists measured by native numbers, and C arrays: writes and reads of a run of cells.
use Prim.Native.Nat.{ℕ, zero, suc, ◌+◌, ◌-◌, ◌≤◌, ◌<◌, min}
use mathlib.Core.Path.{◌≡◌, refl, sym, ap, ◌∙◌}
use mathlib.Core.List.{List, [], ◌∷◌, ◌++◌, map, append_assoc}
use mathlib.Core.Bool.{Bool, true, false}
use deepstream_fpfilter.Prelude.Tests.{if◌then◌else◌}
use mathlib.Core.Option
use mathlib.Core.Option.{Option, none, some}
use native.Mathlib.Omega.{arith}

module _ {ℓ} {A : Type ℓ} where
  abbrev pub length : List A → ℕ
  length [] = 0
  length (x ∷ xs) = suc (length xs)

  abbrev pub take : ℕ → List A → List A
  take zero xs = []
  take (suc n) [] = []
  take (suc n) (x ∷ xs) = x ∷ take n xs

  abbrev pub drop : ℕ → List A → List A
  drop zero xs = xs
  drop (suc n) [] = []
  drop (suc n) (x ∷ xs) = drop n xs

  abbrev pub replicate : ℕ → A → List A
  replicate zero a = []
  replicate (suc n) a = a ∷ replicate n a

  pub length-append : (xs ys : List A) → length (xs ++ ys) ≡ length xs + length ys
  length-append [] ys = omega arith
  length-append (x ∷ xs) ys = omega (arith, length-append xs ys)

  pub length-take : (n : ℕ) (xs : List A) → length (take n xs) ≡ min n (length xs)
  length-take zero xs = omega arith
  length-take (suc n) [] = omega arith
  length-take (suc n) (x ∷ xs) = omega (arith, length-take n xs)

  pub length-drop : (n : ℕ) (xs : List A) → length (drop n xs) ≡ length xs - n
  length-drop zero xs = omega arith
  length-drop (suc n) [] = omega arith
  length-drop (suc n) (x ∷ xs) = omega (arith, length-drop n xs)

  pub length-replicate : (n : ℕ) (a : A) → length (replicate n a) ≡ n
  length-replicate zero a = refl
  length-replicate (suc n) a = ap suc (length-replicate n a)

  pub take-append-drop : (n : ℕ) (xs : List A) → take n xs ++ drop n xs ≡ xs
  take-append-drop zero xs = refl
  take-append-drop (suc n) [] = refl
  take-append-drop (suc n) (x ∷ xs) = ap (◌∷◌ x) (take-append-drop n xs)

  -- `memcpy(a + i, vs, n)`; `none` is a write past the end of the array.
  unfoldable pub write_at : List A → ℕ → List A → Option (List A)
  write_at xs i [] = some xs
  write_at [] i (v ∷ vs) = none
  write_at (x ∷ xs) zero (v ∷ vs) = Option.map (◌∷◌ v) (write_at xs zero vs)
  write_at (x ∷ xs) (suc i) (v ∷ vs) = Option.map (◌∷◌ x) (write_at xs i (v ∷ vs))

  write_at-front :
      (old vs : List A)
      → length vs ≤ length old
      → write_at old 0 vs ≡ some (vs ++ drop (length vs) old)
  unfolding write_at
  write_at-front old [] h = refl
  write_at-front [] (v ∷ vs) h = absurd (omega arith)
  write_at-front (x ∷ old) (v ∷ vs) h = rw (write_at-front old vs (omega arith))

  -- A write right behind a front that stays.
  pub write_at-append :
      (pre old vs : List A)
      → length vs ≤ length old
      → write_at (pre ++ old) (length pre) vs ≡ some (pre ++ (vs ++ drop (length vs) old))
  unfolding write_at
  write_at-append pre old [] h = refl
  write_at-append [] old (v ∷ vs) h = write_at-front old (v ∷ vs) h
  write_at-append (x ∷ pre) old (v ∷ vs) h = rw (write_at-append pre old (v ∷ vs) h)

  write_at_front_overflow : (old vs : List A) → length old < length vs → write_at old 0 vs ≡ none
  unfolding write_at
  write_at_front_overflow old [] h = absurd (omega arith)
  write_at_front_overflow [] (v ∷ vs) h = refl
  write_at_front_overflow (x ∷ old) (v ∷ vs) h = rw (write_at_front_overflow old vs (omega arith))

  pub write_at_overflow :
      (pre old vs : List A) → length old < length vs → write_at (pre ++ old) (length pre) vs ≡ none
  unfolding write_at
  write_at_overflow pre old [] h = absurd (omega arith)
  write_at_overflow [] old (v ∷ vs) h = write_at_front_overflow old (v ∷ vs) h
  write_at_overflow (x ∷ pre) old (v ∷ vs) h = rw (write_at_overflow pre old (v ∷ vs) h)

  -- Two ways to cut one list: the shorter front is a front of the longer one.
  pub append-cut :
      (xs ys zs ws : List A)
      → xs ++ ys ≡ zs ++ ws
      → length xs ≤ length zs
      → (zs ≡ xs ++ drop (length xs) zs) × (ys ≡ drop (length xs) zs ++ ws)
  append-cut [] ys zs ws e h = (refl, e)
  append-cut (x ∷ xs) ys [] ws e h = absurd (omega arith)
  append-cut (x ∷ xs) ys (z ∷ zs) ws e h =
      let (p, q) = append-cut xs ys zs ws (cc) (omega arith) in (cc, q)

  pub take-nil : (n : ℕ) → take n [] ≡ []
  take-nil zero = refl
  take-nil (suc n) = refl

  pub drop-nil : (n : ℕ) → drop n [] ≡ []
  drop-nil zero = refl
  drop-nil (suc n) = refl

  -- To skip two runs one after the other is to skip both at once.
  drop-append :
      (xs ys zs : List A) → drop (length (xs ++ ys)) zs ≡ drop (length ys) (drop (length xs) zs)
  drop-append [] ys zs = refl
  drop-append (x ∷ xs) ys [] = sym (drop-nil (length ys))
  drop-append (x ∷ xs) ys (z ∷ zs) = drop-append xs ys zs

  -- Two runs put one behind the other over the cells `old` are their concatenation put there.
  pub regroup :
      (front xs ys old : List A)
      → (front ++ xs) ++ (ys ++ drop (length ys) (drop (length xs) old))
        ≡ front ++ ((xs ++ ys) ++ drop (length (xs ++ ys)) old)
  regroup front xs ys old =
      rw (drop-append xs ys old)
        (append_assoc front xs _ ∙ ap (◌++◌ front) (sym (append_assoc xs ys _)))

  take-all : (xs ys : List A) → take (length xs) (xs ++ ys) ≡ xs
  take-all [] ys = refl
  take-all (x ∷ xs) ys = ap (◌∷◌ x) (take-all xs ys)

  drop-all : (xs ys : List A) → drop (length xs) (xs ++ ys) ≡ ys
  drop-all [] ys = refl
  drop-all (x ∷ xs) ys = drop-all xs ys

  -- The cells between a front and a tail.
  pub window :
      (front xs tail : List A) → take (length xs) (drop (length front) (front ++ (xs ++ tail))) ≡ xs
  window front xs tail = rw (drop-all front (xs ++ tail)) (take-all xs tail)

-- A predicate on every element, by recursion.
abbrev pub All {ℓ κ} : {A : Type ℓ} → (A → Type κ) → List A → Type κ
All P [] = Unit
All P (x ∷ xs) = P x × All P xs

-- A front that is as long as the list is the list.
pub take-all_of_le {ℓ} : {A : Type ℓ} (n : ℕ) (xs : List A) → length xs ≤ n → take n xs ≡ xs
take-all_of_le zero [] h = refl
take-all_of_le (suc n) [] h = refl
take-all_of_le zero (x ∷ xs) h = absurd (omega arith)
take-all_of_le (suc n) (x ∷ xs) h = ap (◌∷◌ x) (take-all_of_le n xs (omega arith))

pub length-map {ℓ κ} :
    {A : Type ℓ} {B : Type κ} (xs : List A) (f : A → B) → length (map f xs) ≡ length xs
length-map [] f = refl
length-map (x ∷ xs) f = ap suc (length-map xs f)

pub All-map {ℓ κ ι} :
    {A : Type ℓ} {P : A → Type κ} {Q : A → Type ι}
    → ((x : A) → P x → Q x)
    → (xs : List A) → All P xs
    → All Q xs
All-map f [] h = tt
All-map f (x ∷ xs) (p, h) = (f x p, All-map f xs h)

pub All-zip {ℓ κ ι} :
    {A : Type ℓ} (P : A → Type κ) (Q : A → Type ι) (xs : List A)
    → All P xs
    → All Q xs
    → All (λ x. P x × Q x) xs
All-zip P Q [] h g = tt
All-zip P Q (x ∷ xs) (p, h) (q, g) = ((p, q), All-zip P Q xs h g)

pub All-insert {ℓ κ} :
    {A : Type ℓ} (P : A → Type κ) (xs ys : List A) {a : A}
    → P a
    → All P (xs ++ ys)
    → All P (xs ++ (a ∷ ys))
All-insert P [] ys p h = (p, h)
All-insert P (x ∷ xs) ys p (q, h) = (q, All-insert P xs ys p h)

pub All-remove {ℓ κ} :
    {A : Type ℓ} (P : A → Type κ) (xs ys : List A) {a : A}
    → All P (xs ++ (a ∷ ys))
    → P a × All P (xs ++ ys)
All-remove P [] ys h = h
All-remove P (x ∷ xs) ys (q, h) = let (p, g) = All-remove P xs ys h in (p, (q, g))

-- What holds of the value, if there is one.
abbrev pub Holds {ℓ κ} : {A : Type ℓ} → (A → Type κ) → Option A → Type κ
Holds P none = Unit
Holds P (some a) = P a

pub Holds-if {ℓ κ} :
    {A : Type ℓ} (P : A → Type κ) (b : Bool) (o : Option A)
    → (b ≡ false → Holds P o)
    → Holds P (if b then none else o)
Holds-if P true o h = tt
Holds-if P false o h = h refl
