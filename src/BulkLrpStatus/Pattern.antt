-- ===== src/BulkLrpStatus/Pattern.antt =====
-- handler/bulklrpstatus/bulklrpstatus.go: `processGuidPattern` beside `strings.Split`.
use mathlib.Core.List.{append_assoc}
use tps.Base.{
  All-impl, ◌≤◌, ◌⊎◌, ℕ, ◌==◌, ==_iff, Str, true, List, [], ◌∷◌, ◌++◌, ◌≡◌, ◌≢◌, ◌↔◌, refl, sym,
  arith, All,
}
use tps.Regex.{Regex, Matches, plus, matches}
use tps.Regex.Laws.{matches_iff}
use tps.Split.{split, join, Without, split-ne, join-split, split-append, split_of_Without}
use tps.BulkLrpStatus.{comma, is_guid_char, process_guid_pattern}

-- A letter, a digit, a dash or an underscore, by its ASCII code.
abbrev pub IsGuidChar : ℕ → Type 0
IsGuidChar c =
    ((65 ≤ c) × (c ≤ 90)) ⊎ ((97 ≤ c) × (c ≤ 122)) ⊎ ((48 ≤ c) × (c ≤ 57)) ⊎ (c ≡ 45) ⊎ (c ≡ 95)

-- One or more of these.
abbrev pub IsGuidText : Str → Type 0
IsGuidText u = (u ≢ []) × All IsGuidChar u

is_guid_char_iff : (c : ℕ) → (is_guid_char c ≡ true) ↔ IsGuidChar c
unfolding is_guid_char
is_guid_char_iff c = ground arith

-- What the repetition of the expression takes.
abbrev IsWord : Str → Type 0
IsWord u = (u ≢ []) × All (λ c. is_guid_char c ≡ true) u

IsWord-IsGuidText : (u : Str) → IsWord u → IsGuidText u
IsWord-IsGuidText u (some_char, h) = (some_char, All-impl _ _ u (λ c k. (is_guid_char_iff c).0 k) h)

IsGuidText-IsWord : (u : Str) → IsGuidText u → IsWord u
IsGuidText-IsWord u (some_char, h) = (some_char, All-impl _ _ u (λ c k. (is_guid_char_iff c).1 k) h)

abbrev letter : Regex
letter = Regex.chars is_guid_char

abbrev separator : Regex
separator = Regex.chars (λ c. c == comma)

letters_of_star : {s : Str} → Matches (Regex.star letter) s → All (λ c. is_guid_char c ≡ true) s
letters_of_star (Matches.done e) = rw e tt
letters_of_star (Matches.more u v e (Matches.chars c p f) n) = rw (e, f) (p, letters_of_star n)

star_of_letters : (s : Str) → All (λ c. is_guid_char c ≡ true) s → Matches (Regex.star letter) s
star_of_letters [] h = Matches.done refl
star_of_letters (c ∷ s) h =
    Matches.more (c ∷ []) s refl (Matches.chars c h.0 refl) (star_of_letters s h.1)

text_of_plus : {s : Str} → Matches (plus letter) s → IsWord s
text_of_plus (Matches.seq u v e (Matches.chars c p f) n) =
    rw (e, f) ((λ h. cc), (p, letters_of_star n))

plus_of_text : (s : Str) → IsWord s → Matches (plus letter) s
plus_of_text [] h = absurd (h.0 refl)
plus_of_text (c ∷ s) h =
    Matches.seq (c ∷ []) s refl (Matches.chars c h.1.0 refl) (star_of_letters s h.1.1)

-- A comma is no character of a guid.
Without-of_letters : (s : Str) → All (λ c. is_guid_char c ≡ true) s → Without comma s
unfolding is_guid_char
Without-of_letters [] h = tt
Without-of_letters (c ∷ s) h = ((λ e. ground (arith, h.0)), Without-of_letters s h.1)

abbrev items : Regex
items = Regex.star (Regex.seq (plus letter) separator)

item_first :
    (s u w x y : Str) (c : ℕ)
    → s ≡ u ++ w
    → u ≡ x ++ y
    → y ≡ c ∷ []
    → c ≡ comma
    → (v : Str) → s ++ v ≡ x ++ comma ∷ (w ++ v)
item_first s u w x y c e f g p v = rw (e, f, g, p) (simp append_assoc)

split_of_items :
    {s : Str} → Matches items s → (v : Str) → IsWord v → All IsWord (split comma (s ++ v))
split_of_items (Matches.done e) v h =
    rw (e, split_of_Without comma v (Without-of_letters v h.1)) (h, tt)
split_of_items (Matches.more u w e (Matches.seq x y f m (Matches.chars c p g)) n) v h =
    let text = text_of_plus m in
    rw (item_first _ u w x y c e f g ((==_iff c comma).0 p) v) (
      rw (split-append comma x (w ++ v) (Without-of_letters x text.1)) (text, split_of_items n v h))

parts_match :
    (part : Str) (parts : List Str)
    → All IsWord (part ∷ parts)
    → Matches process_guid_pattern (join comma (part ∷ parts))
unfolding process_guid_pattern join
parts_match part [] h = Matches.seq [] part refl (Matches.done refl) (plus_of_text part h.0)
parts_match part (next ∷ parts) h = prepend (parts_match next parts h.1)
  where
    prepend :
        Matches process_guid_pattern (join comma (next ∷ parts))
        → Matches process_guid_pattern (part ++ comma ∷ join comma (next ∷ parts))
    prepend (Matches.seq u v e m n) =
        Matches.seq (part ++ comma ∷ u) v (rw e (sym (append_assoc part (comma ∷ u) v)))
          (Matches.more (part ++ comma ∷ []) u (sym (append_assoc part (comma ∷ []) u))
            (Matches.seq part (comma ∷ []) refl (plus_of_text part h.0)
              (Matches.chars comma refl refl))
            m)
          n

texts_of_match : {s : Str} → Matches process_guid_pattern s → All IsWord (split comma s)
unfolding process_guid_pattern
texts_of_match (Matches.seq u v e m n) = rw e (split_of_items m v (text_of_plus n))

match_of_texts :
    (parts : List Str)
    → parts ≢ []
    → All IsWord parts
    → Matches process_guid_pattern (join comma parts)
match_of_texts [] n h = absurd (n refl)
match_of_texts (part ∷ parts) n h = parts_match part parts h

-- The parameter is accepted exactly if every part between its commas is a nonempty run of letters,
-- digits, dashes and underscores: the expression and the split agree on what a guid is.
pub matches_iff_split :
    (s : Str) → (matches process_guid_pattern s ≡ true) ↔ All IsGuidText (split comma s)
matches_iff_split s =
    let (to, from) = matches_iff process_guid_pattern s in
    (
      λ h. All-impl _ _ (split comma s) IsWord-IsGuidText (texts_of_match (to h)),
      λ h.
          let words = All-impl _ _ (split comma s) IsGuidText-IsWord h in
          from
            (rw (join-split comma s) at (match_of_texts (split comma s) (split-ne comma s) words)),
    )
