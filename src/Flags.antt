-- ===== src/Flags.antt =====
-- The part of Go's `flag` package that the commands use: flags with defaults, and the arguments of a
-- process that set them.
use tps.Base.{
  pos, ◌==◌, ℤ, Str, bytes, str_eq, Bool, true, false, ◌||◌, Option, none, some, List, [], ◌∷◌,
  if◌then◌else◌,
}

-- A flag's value; a duration is in nanoseconds.
pub data Value : Type 0 where
  text : Str → Value
  number : ℤ → Value
  boolean : Bool → Value
  duration : ℤ → Value

-- A flag with its present value, whose constructor is the flag's type.
pub record Flag : Type 0 where
  pub name : Str
  pub value : Value

-- strconv.ParseInt and time.ParseDuration, none for an error.
pub record Numerals : Type 0 where
  pub parse_int : Str → Option ℤ
  pub parse_duration : Str → Option ℤ

-- strconv.ParseBool
unfoldable pub parse_bool : Str → Option Bool
parse_bool s =
    if str_eq s (bytes "1")
      || str_eq s (bytes "t")
      || str_eq s (bytes "T")
      || str_eq s (bytes "true")
      || str_eq s (bytes "TRUE")
      || str_eq s (bytes "True")
    then some true
    else if str_eq s (bytes "0")
        || str_eq s (bytes "f")
        || str_eq s (bytes "F")
        || str_eq s (bytes "false")
        || str_eq s (bytes "FALSE")
        || str_eq s (bytes "False")
    then some false
    else none

abbrev pub or_else : {A B : Type 0} → (A → B) → Option A → Option B
or_else f none = none
or_else f (some a) = some (f a)

-- `Value.Set`, for the type of the old value.
unfoldable pub parse_value : Numerals → Value → Str → Option Value
unfolding parse_bool
parse_value numerals (text _) s = some (text s)
parse_value numerals (number _) s = or_else number (numerals.parse_int s)
parse_value numerals (boolean _) s = or_else boolean (parse_bool s)
parse_value numerals (duration _) s = or_else duration (numerals.parse_duration s)

-- `FlagSet.Lookup`
unfoldable pub value_of : Str → List Flag → Option Value
value_of name [] = none
value_of name (f ∷ flags) = if str_eq f.name name then some f.value else value_of name flags

unfoldable pub put_value : Str → Value → List Flag → List Flag
put_value name v [] = []
put_value name v (f ∷ flags) =
    if str_eq f.name name then record f { value = v } ∷ flags else f ∷ put_value name v flags

-- The values that the flags' pointers read; of another type no flag is asked for.
unfoldable pub text_of : Str → List Flag → Str
unfolding value_of
text_of name flags = elim (value_of name flags) [
  | none ↦ []
  | some v ↦ elim v [ text s ↦ s | number _ ↦ [] | boolean _ ↦ [] | duration _ ↦ [] ]
]

unfoldable pub number_of : Str → List Flag → ℤ
unfolding value_of
number_of name flags = elim (value_of name flags) [
  | none ↦ pos 0
  | some v ↦ elim v [ text _ ↦ pos 0 | number n ↦ n | boolean _ ↦ pos 0 | duration _ ↦ pos 0 ]
]

unfoldable pub duration_of : Str → List Flag → ℤ
unfolding value_of
duration_of name flags = elim (value_of name flags) [
  | none ↦ pos 0
  | some v ↦ elim v [ text _ ↦ pos 0 | number _ ↦ pos 0 | boolean _ ↦ pos 0 | duration d ↦ d ]
]

unfoldable pub boolean_of : Str → List Flag → Bool
unfolding value_of
boolean_of name flags = elim (value_of name flags) [
  | none ↦ false
  | some v ↦ elim v [ text _ ↦ false | number _ ↦ false | boolean b ↦ b | duration _ ↦ false ]
]

-- How an argument reads: no flag, the end of the flags, a bad one, or a name with the value behind `=`.
pub data Argument : Type 0 where
  plain terminator malformed : Argument
  named : Str → Option Str → Argument

-- The text before the first `=` and the text after it.
unfoldable pub cut : Str → Str × Option Str
cut [] = ([], none)
cut (c ∷ s) = let (before, after) = cut s in if c == b'=' then ([], some s) else (c ∷ before, after)

-- The argument behind its dashes.
unfoldable pub read_name : Str → Argument
unfolding cut
read_name [] = malformed
read_name (c ∷ s) =
    if c == b'-' || c == b'='
    then malformed
    else (let (name, value) = cut (c ∷ s) in named name value)

unfoldable pub read_argument : Str → Argument
unfolding read_name
read_argument [] = plain
read_argument (c ∷ []) = plain
read_argument (c ∷ d ∷ []) =
    if c == b'-' then (if d == b'-' then terminator else read_name (d ∷ [])) else plain
read_argument (c ∷ d ∷ e ∷ s) =
    if c == b'-' then (if d == b'-' then read_name (e ∷ s) else read_name (d ∷ e ∷ s)) else plain

abbrev pub is_boolean : Value → Bool
is_boolean (boolean _) = true
is_boolean (text _) = false
is_boolean (number _) = false
is_boolean (duration _) = false

module _ (numerals : Numerals) where
  -- `f.Value.Set(value)`
  unfoldable pub set_flag : List Flag → Str → Str → Option (List Flag)
  unfolding value_of put_value parse_value
  set_flag flags name s = elim (value_of name flags) [
    | none ↦ none
    | some old ↦ or_else (λ v. put_value name v flags) (parse_value numerals old s)
  ]

  -- A flag without `=`: a boolean one stands for itself.
  unfoldable pub stands_alone : List Flag → Str → Bool
  unfolding value_of
  stands_alone flags name = elim (value_of name flags) [ none ↦ false | some v ↦ is_boolean v ]

  abbrev then_parse : (List Flag → Option (List Flag)) → Option (List Flag) → Option (List Flag)
  then_parse rest none = none
  then_parse rest (some flags) = rest flags

  -- `flag.Parse()`; none ends the process with a message on its usage.
  unfoldable pub parse : List Str → List Flag → Option (List Flag)
  unfolding set_flag stands_alone read_argument
  parse [] flags = some flags
  parse (s ∷ []) flags = elim (read_argument s) [
    | plain ↦ some flags
    | terminator ↦ some flags
    | malformed ↦ none
    | named name value ↦ elim value [
      | some v ↦ set_flag flags name v
      | none ↦ if stands_alone flags name then set_flag flags name (bytes "true") else none
    ]
  ]
  parse (s ∷ next ∷ args) flags =
      let behind : List Flag → Option (List Flag) = parse (next ∷ args) in
      let behind_next : List Flag → Option (List Flag) = parse args in
      elim (read_argument s) [
        | plain ↦ some flags
        | terminator ↦ some flags
        | malformed ↦ none
        | named name value ↦ elim value [
          | some v ↦ then_parse behind (set_flag flags name v)
          | none ↦
              if stands_alone flags name
              then then_parse behind (set_flag flags name (bytes "true"))
              else then_parse behind_next (set_flag flags name next)
        ]
      ]
