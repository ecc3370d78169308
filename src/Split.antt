-- ===== src/Split.antt =====
-- Go's `strings.Split` by a separator of one byte, and `strings.Join`.
use tps.Base.{
  ℕ, ◌==◌, ==_iff, Str, List, [], ◌∷◌, ◌++◌, ◌≡◌, ◌≢◌, refl, sym, ap, ◌∙◌, arith, All, Bool-cases,
  inl, inr, if◌then◌else◌,
}

-- A byte in front of the first part.
unfoldable pub onto_first : ℕ → List Str → List Str
onto_first c [] = (c ∷ []) ∷ []
onto_first c (part ∷ parts) = (c ∷ part) ∷ parts

-- `strings.Split(s, sep)`
unfoldable pub split : ℕ → Str → List Str
unfolding onto_first
split sep [] = [] ∷ []
split sep (c ∷ s) = let rest = split sep s in if c == sep then [] ∷ rest else onto_first c rest

-- `strings.Join(parts, sep)`
unfoldable pub join : ℕ → List Str → Str
join sep [] = []
join sep (part ∷ []) = part
join sep (part ∷ next ∷ parts) = part ++ sep ∷ join sep (next ∷ parts)

-- The text does not hold the separator.
abbrev pub Without : ℕ → Str → Type 0
Without sep = All (λ c. c ≢ sep)

join-nil_first :
    (sep : ℕ) (parts : List Str) → parts ≢ [] → join sep ([] ∷ parts) ≡ sep ∷ join sep parts
unfolding join
join-nil_first sep [] h = absurd (h refl)
join-nil_first sep (part ∷ parts) h = refl

join-onto_first :
    (sep c : ℕ) (parts : List Str) → parts ≢ [] → join sep (onto_first c parts) ≡ c ∷ join sep parts
unfolding join onto_first
join-onto_first sep c [] h = absurd (h refl)
join-onto_first sep c (part ∷ []) h = refl
join-onto_first sep c (part ∷ next ∷ parts) h = refl

onto_first-ne : (c : ℕ) (parts : List Str) → onto_first c parts ≢ []
unfolding onto_first
onto_first-ne c [] = λ e. cc
onto_first-ne c (part ∷ parts) = λ e. cc

pub split-ne : (sep : ℕ) (s : Str) → split sep s ≢ []
unfolding split
split-ne sep [] = λ e. cc
split-ne sep (c ∷ s) = elim (Bool-cases (c == sep)) [
  | inl e ↦ rw (e, split) (λ h. cc)
  | inr e ↦ rw (e, split) (onto_first-ne c (split sep s))
]

-- The parts, joined by the separator, are the text again.
pub join-split : (sep : ℕ) (s : Str) → join sep (split sep s) ≡ s
unfolding split
join-split sep [] = unfold join in refl
join-split sep (c ∷ s) = elim (Bool-cases (c == sep)) [
  | inl e ↦
      rw (e, split)
        (join-nil_first sep (split sep s) (split-ne sep s)
          ∙ ap (◌∷◌ sep) (join-split sep s)
          ∙ ap (λ x. x ∷ s) (sym ((==_iff c sep).0 e)))
  | inr e ↦
      rw (e, split)
        (join-onto_first sep c (split sep s) (split-ne sep s) ∙ ap (◌∷◌ c) (join-split sep s))
]

-- A part without separator is split off whole.
pub split-append :
    (sep : ℕ) (u s : Str) → Without sep u → split sep (u ++ sep ∷ s) ≡ u ∷ split sep s
unfolding split
split-append sep [] s h = ground (arith, ==_iff sep sep)
split-append sep (c ∷ u) s h = ground (arith, h.0, ==_iff c sep, split-append sep u s h.1)

pub split_of_Without : (sep : ℕ) (u : Str) → Without sep u → split sep u ≡ u ∷ []
unfolding split
split_of_Without sep [] h = refl
split_of_Without sep (c ∷ u) h = ground (arith, h.0, ==_iff c sep, split_of_Without sep u h.1)
