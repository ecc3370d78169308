-- ===== src/Base/Perms.antt =====
-- The library's permutations and the lengths of this development.
use Prim.Native.Nat.{suc}
use mathlib.Core.Path.{◌≡◌, refl, ap, ◌∙◌, subst}
use mathlib.Core.Logic.{∥∥₁_elim}
use mathlib.Core.List.{List, Perm, Permᴰ, map}
use native.Mathlib.Nat.{ℕ_set}
use tps.Base.Lists.{length, All}

pub length-permᴰ {ℓ} : {A : Type ℓ} {xs ys : List A} → Permᴰ xs ys → length xs ≡ length ys
length-permᴰ Permᴰ.nil = refl
length-permᴰ (Permᴰ.cons e p) = ap suc (length-permᴰ p)
length-permᴰ (Permᴰ.swap e f) = refl
length-permᴰ (Permᴰ.trans p q) = length-permᴰ p ∙ length-permᴰ q

pub length-perm {ℓ} : {A : Type ℓ} (xs ys : List A) → Perm xs ys → length xs ≡ length ys
length-perm xs ys p = ∥∥₁_elim p (ℕ_set _ _) length-permᴰ

pub map-permᴰ {ℓ κ} :
    {A : Type ℓ} {B : Type κ} (f : A → B) {xs ys : List A}
    → Permᴰ xs ys
    → Permᴰ (map f xs) (map f ys)
map-permᴰ f Permᴰ.nil = Permᴰ.nil
map-permᴰ f (Permᴰ.cons e p) = Permᴰ.cons (ap f e) (map-permᴰ f p)
map-permᴰ f (Permᴰ.swap e g) = Permᴰ.swap (ap f e) (ap f g)
map-permᴰ f (Permᴰ.trans p q) = Permᴰ.trans (map-permᴰ f p) (map-permᴰ f q)

-- What holds of all holds of all in another order.
pub All-permᴰ {ℓ} :
    {A : Type ℓ} (P : A → Type 0) {xs ys : List A} → Permᴰ xs ys → All P xs → All P ys
All-permᴰ P Permᴰ.nil h = h
All-permᴰ P (Permᴰ.cons e p) h = (subst P e h.0, All-permᴰ P p h.1)
All-permᴰ P (Permᴰ.swap e f) h = (subst P f h.1.0, (subst P e h.0, h.1.1))
All-permᴰ P (Permᴰ.trans p q) h = All-permᴰ P q (All-permᴰ P p h)
