-- ===== src/Prelude/Results.antt =====
-- Rust's `Result`.
use mathlib.Core.Logic.{◌⊎◌, inl, inr, ◌≢◌}
use mathlib.Core.Path.{◌≡◌, refl}
use mathlib.Core.Bool.{Bool, true, false}

pub data Result {ℓ κ} (A : Type ℓ) (E : Type κ) : Type (ℓ ⊔ κ) where
  ok : A → Result A E
  err : E → Result A E

infixl 5 ◌>>=◌ ◌>>◌
abbrev pub ◌>>=◌ {ℓ κ ι} :
    {A : Type ℓ} {E : Type κ} {B : Type ι} → Result A E → (A → Result B E) → Result B E
ok a >>= f = f a
err e >>= f = err e

abbrev pub ◌>>◌ {ℓ κ ι} :
    {A : Type ℓ} {E : Type κ} {B : Type ι} → Result A E → Result B E → Result B E
ok a >> k = k
err e >> k = err e

pub Ok-cases {κ} : {E : Type κ} (r : Result (Unit {0}) E) → (r ≡ ok tt) ⊎ (r ≢ ok tt)
Ok-cases (ok tt) = inl refl
Ok-cases (err e) = inr (λ h. cc)

-- A chain that succeeds succeeds at every link.
pub then-ok {κ} :
    {E : Type κ} (r s : Result (Unit {0}) E) → (r >> s) ≡ ok tt → (r ≡ ok tt) × (s ≡ ok tt)
then-ok (ok tt) s h = (refl, h)
then-ok (err e) s h = cc

-- An early return: the error, unless the test holds.
abbrev pub ensure {κ} : {E : Type κ} → Bool → E → Result (Unit {0}) E
ensure true e = ok tt
ensure false e = err e

pub ensure-ok {κ} : {E : Type κ} (b : Bool) (e : E) → ensure b e ≡ ok tt → b ≡ true
ensure-ok true e h = refl
ensure-ok false e h = cc

pub ensure_then-ok {κ} :
    {B : Type 0} {E : Type κ} (b : Bool) (e : E) (r : Result B E) (y : B)
    → (ensure b e >> r) ≡ ok y
    → (b ≡ true) × (r ≡ ok y)
ensure_then-ok true e r y h = (refl, h)
ensure_then-ok false e r y h = cc

pub bind-ok {ℓ κ ι} :
    {A : Type ℓ} {B : Type ι} {E : Type κ} (r : Result A E) (f : A → Result B E) (y : B)
    → (r >>= f) ≡ ok y
    → (a : A) × (r ≡ ok a) × (f a ≡ ok y)
bind-ok (ok a) f y h = (a, refl, h)
bind-ok (err e) f y h = cc

pub ok_unique {ℓ κ} :
    {A : Type ℓ} {E : Type κ} (r : Result A E) (x y : A) → r ≡ ok x → r ≡ ok y → x ≡ y
ok_unique r x y h k = cc

-- What both cases of a result have, a match on it has.
pub result_cases {ℓ κ ι μ} :
    {A : Type ℓ} {E : Type κ} {B : Type ι} (P : B → Type μ) (r : Result A E) (f : E → B) (g : A → B)
    → ((e : E) → r ≡ err e → P (f e))
    → ((a : A) → r ≡ ok a → P (g a))
    → P (elim r [ err e ↦ f e | ok a ↦ g a ])
result_cases P (err e) f g h k = h e refl
result_cases P (ok a) f g h k = k a refl
