-- ===== src/Base/Text.antt =====
-- Go strings: sequences of bytes, compared and ordered byte by byte.
use Prim.Native.Char.{code}
use Prim.Native.Nat.{ℕ}
use Prim.Native.String.{String}
use mathlib.Core.Path.{◌≡◌, refl}
use mathlib.Core.Logic.{◌↔◌, ◌≢◌}
use mathlib.Core.Bool.{Bool, true, false, ◌&&◌}
use mathlib.Core.List.{List, [], ◌∷◌}
use native.Mathlib.Omega.{arith}
use tps.Base.Tests.{ltb, ◌==◌, if◌then◌else◌}

abbrev pub Str : Type 0
Str = List ℕ

-- An ASCII literal as its bytes.
abbrev pub bytes : String → Str
bytes String.[] = []
bytes (String.◌∷◌ c s) = code c ∷ bytes s

-- `a == b`
unfoldable pub str_eq : Str → Str → Bool
str_eq [] [] = true
str_eq [] (_ ∷ _) = false
str_eq (_ ∷ _) [] = false
str_eq (x ∷ xs) (y ∷ ys) = x == y && str_eq xs ys

-- `a <= b`
unfoldable pub str_leb : Str → Str → Bool
str_leb [] ys = true
str_leb (x ∷ xs) [] = false
str_leb (x ∷ xs) (y ∷ ys) = if ltb x y then true else if ltb y x then false else str_leb xs ys

pub str_eq_iff : (a b : Str) → (str_eq a b ≡ true) ↔ (a ≡ b)
unfolding str_eq
str_eq_iff [] [] = ground arith
str_eq_iff [] (_ ∷ _) = ground arith
str_eq_iff (_ ∷ _) [] = ground arith
str_eq_iff (x ∷ xs) (y ∷ ys) = ground (arith, str_eq_iff xs ys)

pub str_eq_refl : (a : Str) → str_eq a a ≡ true
str_eq_refl a = (str_eq_iff a a).1 refl

pub str_eq_sym : (a b : Str) → str_eq a b ≡ str_eq b a
str_eq_sym a b = ground (arith, str_eq_iff a b, str_eq_iff b a)

pub str_leb_refl : (a : Str) → str_leb a a ≡ true
unfolding str_leb
str_leb_refl [] = refl
str_leb_refl (x ∷ xs) = ground (arith, str_leb_refl xs)

pub str_leb_total : (a b : Str) → str_leb a b ≡ false → str_leb b a ≡ true
unfolding str_leb
str_leb_total [] b h = ground arith
str_leb_total (x ∷ xs) [] h = refl
str_leb_total (x ∷ xs) (y ∷ ys) h = ground (arith, str_leb_total xs ys)

pub str_leb_trans : (a b c : Str) → str_leb a b ≡ true → str_leb b c ≡ true → str_leb a c ≡ true
unfolding str_leb
str_leb_trans [] b c h k = refl
str_leb_trans (x ∷ xs) [] c h k = ground arith
str_leb_trans (x ∷ xs) (y ∷ ys) [] h k = ground arith
str_leb_trans (x ∷ xs) (y ∷ ys) (z ∷ zs) h k = ground (arith, str_leb_trans xs ys zs)

pub str_leb_antisymm : (a b : Str) → str_leb a b ≡ true → str_leb b a ≡ true → a ≡ b
unfolding str_leb
str_leb_antisymm [] [] h k = refl
str_leb_antisymm [] (_ ∷ _) h k = ground arith
str_leb_antisymm (_ ∷ _) [] h k = ground arith
str_leb_antisymm (x ∷ xs) (y ∷ ys) h k = ground (arith, str_leb_antisymm xs ys)

pub str_ne_of : (a b : Str) → str_eq a b ≡ false → a ≢ b
str_ne_of a b h e = ground (arith, str_eq_iff a b)
