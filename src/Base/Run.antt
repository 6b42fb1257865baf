-- ===== src/Base/Run.antt =====
-- Results of code that walks a buffer: a value, a read outside the buffer, or fuel that ran out.
use mathlib.Core.Path.{◌≡◌, refl}
use mathlib.Core.Logic.{◌≢◌, ◌↔◌}

pub data Run {ℓ} (A : Type ℓ) : Type ℓ where
  done : A → Run A
  out_of_bounds : Run A
  out_of_fuel : Run A

infixl 5 ◌>>=◌
abbrev pub ◌>>=◌ {ℓ κ} : {A : Type ℓ} {B : Type κ} → Run A → (A → Run B) → Run B
done a >>= f = f a
out_of_bounds >>= f = out_of_bounds
out_of_fuel >>= f = out_of_fuel

pub >>=-eq-done {ℓ κ} :
    {A : Type ℓ} {B : Type κ} (m : Run A) (f : A → Run B) {b : B}
    → (m >>= f) ≡ done b
    → (a : A) × (m ≡ done a) × (f a ≡ done b)
>>=-eq-done (done a) f h = (a, refl, h)
>>=-eq-done out_of_bounds f h = cc
>>=-eq-done out_of_fuel f h = cc

pub >>=-assoc {ℓ κ ι} :
    {A : Type ℓ} {B : Type κ} {C : Type ι} (m : Run A) (f : A → Run B) (g : B → Run C)
    → ((m >>= f) >>= g) ≡ (m >>= λ a. f a >>= g)
>>=-assoc (done a) f g = refl
>>=-assoc out_of_bounds f g = refl
>>=-assoc out_of_fuel f g = refl

pub done-injective {ℓ} : {A : Type ℓ} {a b : A} → done a ≡ done b → a ≡ b
done-injective h = cc

-- A value meets `P`, if there is one; fuel never runs out.
abbrev pub Ensures {ℓ} : {A : Type ℓ} → (A → Type 0) → Run A → Type 0
Ensures P (done a) = P a
Ensures P out_of_bounds = Unit
Ensures P out_of_fuel = ⊥

-- There is a value, and it meets `P`.
abbrev pub Returns {ℓ} : {A : Type ℓ} → (A → Type 0) → Run A → Type 0
Returns P (done a) = P a
Returns P out_of_bounds = ⊥
Returns P out_of_fuel = ⊥

module _ {ℓ κ} {A : Type ℓ} {B : Type κ} where
  pub Ensures-bind :
      (P : A → Type 0) (Q : B → Type 0) (m : Run A) (f : A → Run B)
      → Ensures P m
      → ((a : A) → P a → Ensures Q (f a))
      → Ensures Q (m >>= f)
  Ensures-bind P Q (done a) f h k = k a h
  Ensures-bind P Q out_of_bounds f h k = tt
  Ensures-bind P Q out_of_fuel f h k = absurd h

  pub Returns-bind :
      (P : A → Type 0) (Q : B → Type 0) (m : Run A) (f : A → Run B)
      → Returns P m
      → ((a : A) → P a → Returns Q (f a))
      → Returns Q (m >>= f)
  Returns-bind P Q (done a) f h k = k a h
  Returns-bind P Q out_of_bounds f h k = absurd h
  Returns-bind P Q out_of_fuel f h k = absurd h

module _ {ℓ} {A : Type ℓ} where
  pub Ensures-mono :
      (P Q : A → Type 0) (m : Run A) → Ensures P m → ((a : A) → P a → Q a) → Ensures Q m
  Ensures-mono P Q (done a) h k = k a h
  Ensures-mono P Q out_of_bounds h k = tt
  Ensures-mono P Q out_of_fuel h k = absurd h

  pub Returns-mono :
      (P Q : A → Type 0) (m : Run A) → Returns P m → ((a : A) → P a → Q a) → Returns Q m
  Returns-mono P Q (done a) h k = k a h
  Returns-mono P Q out_of_bounds h k = absurd h
  Returns-mono P Q out_of_fuel h k = absurd h

  pub Returns-some : (P : A → Type 0) (m : Run A) → Returns P m → (a : A) × (m ≡ done a) × P a
  Returns-some P (done a) h = (a, refl, h)
  Returns-some P out_of_bounds h = absurd h
  Returns-some P out_of_fuel h = absurd h

  -- Both facts at once.
  pub Returns-Ensures :
      (P Q : A → Type 0) (m : Run A) → Returns P m → Ensures Q m → Returns (λ a. P a × Q a) m
  Returns-Ensures P Q (done a) h k = (h, k)
  Returns-Ensures P Q out_of_bounds h k = absurd h
  Returns-Ensures P Q out_of_fuel h k = absurd h

  pub Ensures-done : (P : A → Type 0) {m : Run A} {a : A} → Ensures P m → m ≡ done a → P a
  Ensures-done P h e = rw e at h

  pub Ensures-both :
      (P Q : A → Type 0) (m : Run A) → Ensures P m → Ensures Q m → Ensures (λ a. P a × Q a) m
  Ensures-both P Q (done a) h k = (h, k)
  Ensures-both P Q out_of_bounds h k = tt
  Ensures-both P Q out_of_fuel h k = absurd h

  pub Returns-ne-out_of_bounds : (P : A → Type 0) (m : Run A) → Returns P m → m ≢ out_of_bounds
  Returns-ne-out_of_bounds P m h e = rw e at h

module _ {ℓ κ} {A : Type ℓ} {B : Type κ} where
  -- A last step that always has a value reads nothing.
  pub bind_done-out_of_bounds :
      (m : Run A) (g : A → B) → ((m >>= λ a. done (g a)) ≡ out_of_bounds) ↔ (m ≡ out_of_bounds)
  bind_done-out_of_bounds (done a) g = (λ h. cc, λ h. cc)
  bind_done-out_of_bounds out_of_bounds g = (λ h. refl, λ h. refl)
  bind_done-out_of_bounds out_of_fuel g = (λ h. cc, λ h. cc)
