-- ===== src/Go/Strings/Trim.antt =====
-- What trimming keeps.
use openpreflight.Prelude.{
  ℕ, List, ◌≡◌, refl, Bool, false, [], ◌∷◌, reverse, reverse-reverse, Bool-cases, inl, inr, All,
  All-append,
}
use mathlib.Core.List.{reverse-cons}
use openpreflight.Go.Strings.{Text, is_space, trim_left, trim_right, trim_space}

pub All-reverse_list {ℓ κ} :
    {A : Type ℓ} (P : A → Type κ) (s : List A) → All P s → All P (reverse s)
All-reverse_list P [] h = tt
All-reverse_list P (c ∷ s) (hc, hs) =
    rw reverse-cons (All-append P (reverse s) (c ∷ []) (All-reverse_list P s hs) (hc, tt))

module _ {ℓ} (P : ℕ → Type ℓ) where
  abbrev All-reverse : (s : Text) → All P s → All P (reverse s)
  All-reverse s h = All-reverse_list P s h

  All-trim_left : (p : ℕ → Bool) (s : Text) → All P s → All P (trim_left p s)
  unfolding trim_left
  All-trim_left p [] h = tt
  All-trim_left p (c ∷ s) (hc, hs) = elim (Bool-cases (p c)) [
    | inl e ↦ rw e (All-trim_left p s hs)
    | inr e ↦ rw e (hc, hs)
  ]

  pub All-trim_space : (s : Text) → All P s → All P (trim_space s)
  unfolding trim_space trim_right
  All-trim_space s h = All-reverse (trim_left is_space (reverse (trim_left is_space s))) (
      All-trim_left is_space (reverse (trim_left is_space s))
        (All-reverse (trim_left is_space s) (All-trim_left is_space s h)))

-- No character is a space.
abbrev pub Solid : Text → Type 0
Solid = All (λ c. is_space c ≡ false)

trim_left-Solid : (s : Text) → Solid s → trim_left is_space s ≡ s
unfolding trim_left
trim_left-Solid [] h = refl
trim_left-Solid (c ∷ s) h = rw h.0

pub trim_space-Solid : (s : Text) → Solid s → trim_space s ≡ s
unfolding trim_space trim_right
trim_space-Solid s h =
    rw (trim_left-Solid s h, trim_left-Solid (reverse s) (All-reverse _ s h)) (reverse-reverse s)
