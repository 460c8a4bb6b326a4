-- ===== src/Go/Strings/Split.antt =====
-- strings.Split by one byte, and strings.Join.
use openpreflight.Prelude.{
  ℕ, ◌≡◌, refl, ap, ◌∙◌, inl, inr, Bool, false, List, [], ◌∷◌, arith, Bool-cases, ◌==◌, ==_iff,
  is_nil, any, All,
}
use openpreflight.Go.Strings.{Text, split, before_first, join}

pub split_some : (sep : ℕ) (s : Text) → is_nil (split sep s) ≡ false
unfolding split
split_some sep [] = refl
split_some sep (c ∷ s) = elim (Bool-cases (c == sep)) [
  | inl e ↦ rw e refl
  | inr e ↦ rw e (go (split sep s))
]
  where
    go : (runs : List Text) → is_nil (before_first c runs) ≡ false
    go [] = refl
    go (run ∷ runs) = refl

join-cons :
    (sep : ℕ) (runs : List Text)
    → is_nil runs ≡ false
    → join ([] ∷ runs) (sep ∷ []) ≡ sep ∷ join runs (sep ∷ [])
unfolding join
join-cons sep [] h = cc
join-cons sep (run ∷ runs) h = refl

join-before_first :
    (c sep : ℕ) (runs : List Text)
    → is_nil runs ≡ false
    → join (before_first c runs) (sep ∷ []) ≡ c ∷ join runs (sep ∷ [])
unfolding join
join-before_first c sep [] h = cc
join-before_first c sep (run ∷ []) h = refl
join-before_first c sep (run ∷ next ∷ runs) h = refl

-- Joining the parts of a text again gives the text.
pub join-split : (sep : ℕ) (s : Text) → join (split sep s) (sep ∷ []) ≡ s
unfolding split
join-split sep [] = unfold join in refl
join-split sep (c ∷ s) = elim (Bool-cases (c == sep)) [
  | inl e ↦ rw e (
      join-cons sep (split sep s) (split_some sep s)
      ∙ (ap (λ r. sep ∷ r) (join-split sep s)
          ∙ ap (λ d. d ∷ s) (omega (arith, (==_iff c sep).0 e))))
  | inr e ↦ rw e (
      join-before_first c sep (split sep s) (split_some sep s) ∙ ap (λ r. c ∷ r) (join-split sep s))
]

before_first-All :
    (p : ℕ → Bool) (c : ℕ) (runs : List Text)
    → p c ≡ false
    → All (λ run. any p run ≡ false) runs
    → All (λ run. any p run ≡ false) (before_first c runs)
before_first-All p c [] e h = (ground (arith, e), tt)
before_first-All p c (run ∷ runs) e (h, hs) = (ground (arith, e, h), hs)

-- A byte that is in a part is in the text, and is not the separator.
pub split-any :
    (p q : ℕ → Bool) (sep : ℕ)
    → ((c : ℕ) → (c == sep) ≡ false → q c ≡ false → p c ≡ false)
    → (s : Text) → any q s ≡ false
    → All (λ run. any p run ≡ false) (split sep s)
unfolding split
split-any p q sep only [] h = (refl, tt)
split-any p q sep only (c ∷ s) h =
    let rest = split-any p q sep only s (ground (arith, h)) in
    elim (Bool-cases (c == sep)) [
      | inl e ↦ rw e (refl, rest)
      | inr e ↦ rw e (before_first-All p c (split sep s) (only c e (ground (arith, h))) rest)
    ]
