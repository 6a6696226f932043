-- ===== src/Base/Results.antt =====
-- `anyhow::Result`: a value, or an error with its message. `ensure` is the macro `ensure!`.
use Prim.Native.String.{String}
use mathlib.Core.Path.{◌≡◌, refl}
use mathlib.Core.Logic.{◌⊎◌, inl, inr}
use mathlib.Core.Bool.{Bool, true, false}
use mathlib.Core.Option.{Option, none, some}

pub data Result {ℓ} (A : Type ℓ) : Type ℓ where
  ok : (value : A) → Result A
  err : (message : String) → Result A

-- `ensure!(test, message)`.
abbrev pub ensure : Bool → String → Result (Unit {0})
ensure test message = elim test [ true ↦ ok tt | false ↦ err message ]

-- `.context(message)?` on an `Option`.
abbrev pub context {ℓ} : {A : Type ℓ} → Option A → String → Result A
context found message = elim found [ none ↦ err message | some value ↦ ok value ]

-- The operator `?`: what follows runs on the value, and an error returns at once.
infixl 5 ◌>>=◌ ◌>>◌
abbrev pub ◌>>=◌ {ℓ κ} :
    {Given : Type ℓ} {Made : Type κ} → Result Given → (Given → Result Made) → Result Made
tried >>= next = elim tried [ ok value ↦ next value | err message ↦ err message ]

abbrev pub ◌>>◌ {κ} : {Made : Type κ} → Result (Unit {0}) → Result Made → Result Made
check >> next = elim check [ ok _ ↦ next | err message ↦ err message ]

-- Where a chain succeeds, so has its first step.
pub >>=-eq-ok {ℓ κ} :
    {Given : Type ℓ} {Made : Type κ} (tried : Result Given) (next : Given → Result Made)
    {made : Made}
    → (tried >>= next) ≡ ok made
    → (value : Given) × (tried ≡ ok value) × (next value ≡ ok made)
>>=-eq-ok (ok value) next done = (value, refl, done)
>>=-eq-ok (err message) next done = cc

pub ensure-eq-ok {ℓ} :
    {Made : Type ℓ} (test : Bool) (message : String) (next : Result Made) {made : Made}
    → (ensure test message >> next) ≡ ok made
    → (test ≡ true) × (next ≡ ok made)
ensure-eq-ok true message next done = (refl, done)
ensure-eq-ok false message next done = cc

-- Two chains with one first step agree where what follows does on the value that it gives.
pub >>=-cong {ℓ κ} :
    {Given : Type ℓ} {Made : Type κ} (tried : Result Given) (f g : Given → Result Made)
    → ((value : Given) → tried ≡ ok value → f value ≡ g value)
    → (tried >>= f) ≡ (tried >>= g)
>>=-cong (ok value) f g same = same value refl
>>=-cong (err message) f g same = refl

pub ok-injective {ℓ} : {A : Type ℓ} {x y : A} → ok x ≡ ok y → x ≡ y
ok-injective h = cc

pub >>-eq-ok {ℓ} :
    {Made : Type ℓ} (check : Result (Unit {0})) (next : Result Made) {made : Made}
    → (check >> next) ≡ ok made
    → (check ≡ ok tt) × (next ≡ ok made)
>>-eq-ok (ok u) next done = (refl, done)
>>-eq-ok (err message) next done = cc

pub Result-cases {ℓ} :
    {Made : Type ℓ} (tried : Result Made)
    → ((value : Made) × (tried ≡ ok value)) ⊎ ((message : String) × (tried ≡ err message))
Result-cases (ok value) = inl (value, refl)
Result-cases (err message) = inr (message, refl)

pub err≢ok {ℓ} : {A : Type ℓ} {message : String} {value : A} → err message ≡ ok value → ⊥
err≢ok h = cc
