-- ===== src/Regex/Laws.antt =====
-- The matcher of texts beside the language of an expression.
use tps.Base.{
  ℕ, Str, true, [], ◌∷◌, ◌++◌, ◌≡◌, ◌↔◌, inl, inr, refl, sym, ap, ◌∙◌, arith, Bool-cases,
}
use tps.Regex.{Regex, Matches, nullable, derivative, matches}

append_nil_parts : (u v : Str) → [] ≡ u ++ v → (u ≡ []) × (v ≡ [])
append_nil_parts [] v e = (refl, sym e)
append_nil_parts (x ∷ u) v e = absurd (cc)

nullable-Matches : (r : Regex) → nullable r ≡ true → Matches r []
unfolding nullable
nullable-Matches Regex.nothing h = absurd (cc)
nullable-Matches Regex.empty h = Matches.empty refl
nullable-Matches (Regex.chars p) h = absurd (cc)
nullable-Matches (Regex.seq a b) h =
    Matches.seq [] [] refl (nullable-Matches a (ground arith)) (nullable-Matches b (ground arith))
nullable-Matches (Regex.alt a b) h = elim (Bool-cases (nullable a)) [
  | inl e ↦ Matches.left (nullable-Matches a e)
  | inr e ↦ Matches.right (nullable-Matches b (ground arith))
]
nullable-Matches (Regex.star a) h = Matches.done refl

Matches-nullable : {r : Regex} {s : Str} → Matches r s → s ≡ [] → nullable r ≡ true
unfolding nullable
Matches-nullable (Matches.empty e) h = refl
Matches-nullable (Matches.chars c p e) h = absurd (cc)
Matches-nullable (Matches.seq u v e m n) h =
    let (p, q) = append_nil_parts u v (sym h ∙ e) in
    ground (arith, Matches-nullable m p, Matches-nullable n q)
Matches-nullable (Matches.left m) h = ground (arith, Matches-nullable m h)
Matches-nullable (Matches.right m) h = ground (arith, Matches-nullable m h)
Matches-nullable (Matches.done e) h = refl
Matches-nullable (Matches.more u v e m n) h = refl

not-Matches-nothing : {s : Str} → Matches Regex.nothing s → ⊥
not-Matches-nothing m = elim m [ ]

Matches-seq_inv :
    {a b : Regex} {s : Str}
    → Matches (Regex.seq a b) s
    → (u : Str) × (v : Str) × (s ≡ u ++ v) × Matches a u × Matches b v
Matches-seq_inv (Matches.seq u v e m n) = (u, v, e, m, n)

-- What the derivative matches, the expression matches behind the character.
derivative_sound : (c : ℕ) (r : Regex) (s : Str) → Matches (derivative c r) s → Matches r (c ∷ s)
unfolding derivative
derivative_sound c Regex.nothing s m = absurd (not-Matches-nothing m)
derivative_sound c Regex.empty s m = absurd (not-Matches-nothing m)
derivative_sound c (Regex.chars p) s m = elim (Bool-cases (p c)) [
  | inl e ↦ chars_hit e (rw e at m)
  | inr e ↦ absurd (not-Matches-nothing {s = s} (rw e at m))
]
  where
    chars_hit : p c ≡ true → Matches Regex.empty s → Matches (Regex.chars p) (c ∷ s)
    chars_hit e (Matches.empty h) = Matches.chars c e (ap (◌∷◌ c) h)
derivative_sound c (Regex.seq a b) s (Matches.left m) =
    let (u, v, e, x, y) = Matches-seq_inv m in
    Matches.seq (c ∷ u) v (ap (◌∷◌ c) e) (derivative_sound c a u x) y
derivative_sound c (Regex.seq a b) s (Matches.right m) = elim (Bool-cases (nullable a)) [
  | inl e ↦ Matches.seq [] (c ∷ s) refl (nullable-Matches a e) (derivative_sound c b s (rw e at m))
  | inr e ↦ absurd (not-Matches-nothing {s = s} (rw e at m))
]
derivative_sound c (Regex.alt a b) s (Matches.left m) = Matches.left (derivative_sound c a s m)
derivative_sound c (Regex.alt a b) s (Matches.right m) = Matches.right (derivative_sound c b s m)
derivative_sound c (Regex.star a) s m =
    let (u, v, e, x, y) = Matches-seq_inv m in
    Matches.more (c ∷ u) v (ap (◌∷◌ c) e) (derivative_sound c a u x) y

-- And the other way round.
derivative_complete :
    {r : Regex} {t : Str} → Matches r t → (c : ℕ) (s : Str) → t ≡ c ∷ s → Matches (derivative c r) s
unfolding derivative
derivative_complete (Matches.empty e) c s h = absurd (cc)
derivative_complete (Matches.chars {p} d e f) c s h =
    let same : c ≡ d = cc in let rest : s ≡ [] = cc in rw (same, e) (Matches.empty rest)
derivative_complete (Matches.seq {a} {b} [] v e m n) c s h =
    rw (Matches-nullable m refl) (Matches.right (derivative_complete n c s (sym e ∙ h)))
derivative_complete (Matches.seq {a} {b} (d ∷ u) v e m n) c s h =
    let same : d ≡ c = cc in
    Matches.left (Matches.seq u v (cc) (derivative_complete m c u (ap (λ x. x ∷ u) same)) n)
derivative_complete (Matches.left m) c s h = Matches.left (derivative_complete m c s h)
derivative_complete (Matches.right m) c s h = Matches.right (derivative_complete m c s h)
derivative_complete (Matches.done e) c s h = absurd (cc)
derivative_complete (Matches.more [] v e m n) c s h = derivative_complete n c s (sym e ∙ h)
derivative_complete (Matches.more (d ∷ u) v e m n) c s h =
    let same : d ≡ c = cc in
    Matches.seq u v (cc) (derivative_complete m c u (ap (λ x. x ∷ u) same)) n

-- The matcher accepts exactly the texts of the language.
pub matches_iff : (r : Regex) (s : Str) → (matches r s ≡ true) ↔ Matches r s
unfolding matches
matches_iff r [] = (nullable-Matches r, λ m. Matches-nullable m refl)
matches_iff r (c ∷ s) =
    let (to, from) = matches_iff (derivative c r) s in
    (λ h. derivative_sound c r s (to h), λ m. from (derivative_complete m c s refl))
