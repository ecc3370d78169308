-- ===== src/Format.antt =====
-- Go's `fmt.Sprintf` with one string argument, for formats whose verbs are %s and %%.
use mathlib.Core.Option
use tps.Base.{
  ℕ, ◌==◌, ==_iff, Str, bytes, Option, none, some, [], ◌∷◌, ◌++◌, ◌≡◌, ◌≢◌, refl, ap, ◌∙◌, arith,
  All, if◌then◌else◌,
}

abbrev pub percent : ℕ
percent = b'%'

-- What %s prints: the argument, or a complaint where it is used up.
abbrev pub argument : Option Str → Str
argument none = bytes "%!s(MISSING)"
argument (some arg) = arg

-- What an argument that no verb has used leaves at the end.
abbrev pub extra : Option Str → Str
extra none = []
extra (some arg) = bytes "%!(EXTRA string=" ++ arg ++ bytes ")"

-- `fmt.Sprintf(format, arg)`, with the argument while it is unused; none stands for a format with
-- another verb, which this model does not cover.
unfoldable pub sprintf : Str → Option Str → Option Str
sprintf [] arg = some (extra arg)
sprintf (c ∷ []) arg = if c == percent then none else some (c ∷ extra arg)
sprintf (c ∷ d ∷ format) arg =
    let plain = Option.map (◌∷◌ c) (sprintf (d ∷ format) arg) in
    let escaped = Option.map (◌∷◌ percent) (sprintf format arg) in
    let string = Option.map (◌++◌ (argument arg)) (sprintf format none) in
    if c == percent
    then (if d == b's' then string else if d == percent then escaped else none)
    else plain

sprintf-cons :
    (c : ℕ) (format : Str) (arg : Option Str)
    → c ≢ percent
    → sprintf (c ∷ format) arg ≡ Option.map (◌∷◌ c) (sprintf format arg)
unfolding sprintf
sprintf-cons c [] arg h = ground (arith, ==_iff c percent)
sprintf-cons c (d ∷ format) arg h = ground (arith, ==_iff c percent)

-- Text without a percent sign is printed as it is.
pub sprintf-append :
    (text format : Str) (arg : Option Str)
    → All (λ c. c ≢ percent) text
    → sprintf (text ++ format) arg ≡ Option.map (◌++◌ text) (sprintf format arg)
sprintf-append [] format arg h = keep (sprintf format arg)
  where
    keep : (o : Option Str) → o ≡ Option.map (◌++◌ []) o
    keep none = refl
    keep (some s) = refl
sprintf-append (c ∷ text) format arg h =
    sprintf-cons c (text ++ format) arg h.0
    ∙ ap (Option.map (◌∷◌ c)) (sprintf-append text format arg h.1)
    ∙ join (sprintf format arg)
  where
    join :
        (o : Option Str)
        → Option.map (◌∷◌ c) (Option.map (◌++◌ text) o) ≡ Option.map (◌++◌ (c ∷ text)) o
    join none = refl
    join (some s) = refl
