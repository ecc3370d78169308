-- ===== src/Base/Panic.antt =====
-- What a Go computation does that may panic: a nil dereference or an index out of range ends it.
use mathlib.Core.Path.{◌≡◌, refl}
use mathlib.Core.Logic.{◌⊎◌, inl, inr}
use mathlib.Core.Option.{Option, none, some}

pub data Result {ℓ} (A : Type ℓ) : Type ℓ where
  panics : Result A
  ok : A → Result A

-- The rest of a computation is run where its first part returns.
abbrev pub ◌>>=◌ {ℓ κ} :
    {A : Type ℓ} {B : Type κ} (first : Result A) (rest : A → Result B) → Result B
panics >>= rest = panics
ok a >>= rest = rest a

infixl 5 ◌>>=◌
-- `*p`: a nil pointer cannot be read.
abbrev pub deref {ℓ} : {A : Type ℓ} → Option A → Result A
deref none = panics
deref (some a) = ok a

-- A computation that returns has a first part that returns.
pub >>=-eq-ok {ℓ κ} :
    {A : Type ℓ} {B : Type κ} (first : Result A) (rest : A → Result B) {b : B}
    → (first >>= rest) ≡ ok b
    → (a : A) × (first ≡ ok a) × (rest a ≡ ok b)
>>=-eq-ok panics rest h = cc
>>=-eq-ok (ok a) rest h = (a, refl, h)

pub Result-cases {ℓ} : {A : Type ℓ} (r : Result A) → (r ≡ panics) ⊎ ((a : A) × (r ≡ ok a))
Result-cases panics = inl refl
Result-cases (ok a) = inr (a, refl)
