-- ===== src/Results.antt =====
-- `Result` of src/result.rs with the operator `?`.
use rust_u4pak.Common.{◌≡◌, ◌⊎◌, inl, inr, refl}
use rust_u4pak.Io.{Error, Result, done, failed}

infixl 5 ◌>>=◌
abbrev pub ◌>>=◌ {ℓ κ} : {A : Type ℓ} {B : Type κ} → Result A → (A → Result B) → Result B
done a >>= f = f a
failed e >>= f = failed e

-- A chain that succeeds does so in both its parts.
pub >>=-eq-done {ℓ κ} :
    {A : Type ℓ} {B : Type κ} (m : Result A) (f : A → Result B) {b : B}
    → ◌>>=◌ m f ≡ done b
    → (a : A) × (m ≡ done a) × (f a ≡ done b)
>>=-eq-done (done a) f h = (a, refl, h)
>>=-eq-done (failed e) f h = cc

pub Result-cases {ℓ} :
    {A : Type ℓ} (m : Result A) → ((a : A) × (m ≡ done a)) ⊎ ((e : Error) × (m ≡ failed e))
Result-cases (done a) = inl (a, refl)
Result-cases (failed e) = inr (e, refl)
