-- ===== src/Regex.antt =====
-- Regular expressions, as far as the program's pattern uses Go's regexp: their language, and a matcher
-- of whole texts by derivatives.
pub mod Laws
use tps.Base.{ℕ, Str, Bool, true, false, ◌&&◌, ◌||◌, List, [], ◌∷◌, ◌++◌, ◌≡◌, if◌then◌else◌}

pub data Regex : Type 0 where
  nothing : Regex
  empty : Regex
  chars : (ℕ → Bool) → Regex
  seq : Regex → Regex → Regex
  alt : Regex → Regex → Regex
  star : Regex → Regex

-- `r+`
abbrev pub plus : Regex → Regex
plus r = seq r (star r)

-- The texts of an expression's language.
pub data Matches : Regex → Str → Type 0 where
  empty : {s : Str} → s ≡ [] → Matches Regex.empty s
  chars : {p : ℕ → Bool} {s : Str} (c : ℕ) → p c ≡ true → s ≡ c ∷ [] → Matches (Regex.chars p) s
  seq :
      {a b : Regex} {s : Str} (u v : Str)
      → s ≡ u ++ v
      → Matches a u
      → Matches b v
      → Matches (Regex.seq a b) s
  left : {a b : Regex} {s : Str} → Matches a s → Matches (Regex.alt a b) s
  right : {a b : Regex} {s : Str} → Matches b s → Matches (Regex.alt a b) s
  done : {a : Regex} {s : Str} → s ≡ [] → Matches (Regex.star a) s
  more :
      {a : Regex} {s : Str} (u v : Str)
      → s ≡ u ++ v
      → Matches a u
      → Matches (Regex.star a) v
      → Matches (Regex.star a) s

-- Whether the language holds the empty text.
unfoldable pub nullable : Regex → Bool
nullable nothing = false
nullable empty = true
nullable (chars p) = false
nullable (seq a b) = nullable a && nullable b
nullable (alt a b) = nullable a || nullable b
nullable (star a) = true

-- What may follow the character `c`.
unfoldable pub derivative : ℕ → Regex → Regex
unfolding nullable
derivative c nothing = nothing
derivative c empty = nothing
derivative c (chars p) = if p c then empty else nothing
derivative c (seq a b) =
    alt (seq (derivative c a) b) (if nullable a then derivative c b else nothing)
derivative c (alt a b) = alt (derivative c a) (derivative c b)
derivative c (star a) = seq (derivative c a) (star a)

-- `^r$` matches the text.
unfoldable pub matches : Regex → Str → Bool
unfolding derivative
matches r [] = nullable r
matches r (c ∷ s) = matches (derivative c r) s
