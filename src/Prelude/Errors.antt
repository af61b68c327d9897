-- ===== src/Prelude/Errors.antt =====
-- The exceptions that the program's functions raise, and results that carry them.
use mathlib.Core.Path.{◌≡◌, refl}
use mathlib.Core.Logic.{◌⊎◌, inl, inr}
use mathlib.Core.Bool.{Bool, true, false}

-- ValueError, struct.error, TypeError, KeyError, OSError, TimeoutError, RuntimeError.
pub data Error : Type 0 where
  value_error struct_error type_error key_error os_error timeout_error runtime_error : Error

-- `err e` stands for a call that raises `e`.
pub data Result {ℓ} (A : Type ℓ) : Type ℓ where
  err : Error → Result A
  ok : A → Result A

-- What a call that did not raise returned before the rest of its block returned.
pub returned {ℓ κ} :
    {A : Type ℓ} {B : Type κ} (call : Result A) (rest : A → Result B) {v : B}
    → elim call [ err e ↦ err e | ok a ↦ rest a ] ≡ ok v
    → (a : A) × (call ≡ ok a) × (rest a ≡ ok v)
returned (err e) rest raised = cc
returned (ok a) rest done = (a, refl, done)

module _ {ℓ κ} {A : Type ℓ} {B : Type κ} where
  infixl 5 ◌>>=◌
  abbrev pub ◌>>=◌ : Result A → (A → Result B) → Result B
  call >>= rest = elim call [ err e ↦ err e | ok a ↦ rest a ]

module _ {ℓ} {B : Type ℓ} where
  infixl 5 ◌>>◌
  abbrev pub ◌>>◌ : Result (Unit {0}) → Result B → Result B
  check >> rest = check >>= λ done. rest

-- `if not test: raise e`
abbrev pub check : Bool → Error → Result (Unit {0})
check test e = elim test [ false ↦ err e | true ↦ ok tt ]

-- The call raises `e`, or returns a value of which `P` holds.
abbrev pub ReturnsOr {ℓ κ} : {A : Type ℓ} → Error → (A → Type κ) → Result A → Type (ℓ ⊔ κ)
ReturnsOr {A = A} e P r = (r ≡ err e) ⊎ ((a : A) × (r ≡ ok a) × P a)

module _ {ℓ κ} {B : Type ℓ} (e : Error) (P : B → Type κ) where
  pub check-ReturnsOr :
      (b : Bool) (rest : Result B)
      → (b ≡ true → ReturnsOr e P rest)
      → ReturnsOr e P (check b e >> rest)
  check-ReturnsOr true rest later = later refl
  check-ReturnsOr false rest later = inl refl

  pub bind-ReturnsOr {μ ν} :
      {A : Type μ} (Q : A → Type ν) (call : Result A) (rest : A → Result B)
      → ReturnsOr e Q call
      → ((a : A) → Q a → ReturnsOr e P (rest a))
      → ReturnsOr e P (elim call [ err e ↦ err e | ok a ↦ rest a ])
  bind-ReturnsOr Q call rest (inl raised) later = rw (raised) (inl refl)
  bind-ReturnsOr Q call rest (inr (a, done, q)) later = rw (done) (later a q)

pub Result-cases {ℓ} :
    {A : Type ℓ} (r : Result A) → ((e : Error) × (r ≡ err e)) ⊎ ((a : A) × (r ≡ ok a))
Result-cases (err e) = inl (e, refl)
Result-cases (ok a) = inr (a, refl)
