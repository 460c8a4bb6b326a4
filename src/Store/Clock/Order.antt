-- ===== src/Store/Clock/Order.antt =====
-- How the texts of timestamps compare.
use native.Mathlib.Nat.{pow-suc}
use openpreflight.Prelude.{
  ℕ, zero, suc, ◌/◌, ◌%◌, ◌^◌, ◌<◌, ◌≡◌, refl, true, Bool-cases, inl, inr, [], ◌∷◌, ◌++◌, arith,
  ◌==◌, ◌∙◌,
}
use openpreflight.Go.Strings.{Text}
use openpreflight.Go.Duration.{fraction_digits, digit}
use openpreflight.Store.Jobs.{text_ltb}
use openpreflight.Store.Clock.{format_time}

text_ltb-append : (p s t : Text) → text_ltb (p ++ s) (p ++ t) ≡ text_ltb s t
unfolding text_ltb
text_ltb-append [] s t = refl
text_ltb-append (c ∷ p) s t = ground (arith, text_ltb-append p s t)

-- The fraction begins with its point once a digit is kept.
fraction_digits-cons :
    (prec v : ℕ) (c : ℕ) (out : Text)
    → (rest : Text) × (fraction_digits prec v (c ∷ out) ≡ b'.' ∷ rest)
unfolding fraction_digits
fraction_digits-cons zero v c out = (c ∷ out, refl)
fraction_digits-cons (suc prec) v c out = fraction_digits-cons prec (v / 10) (digit v) (c ∷ out)

fraction_digits-point :
    (prec v : ℕ) → 0 < v → v < 10 ^ prec → (rest : Text) × (fraction_digits prec v [] ≡ b'.' ∷ rest)
unfolding fraction_digits
fraction_digits-point zero v h k = absurd (omega arith)
fraction_digits-point (suc prec) v h k = elim (Bool-cases (v % 10 == 0)) [
  | inl e ↦
      rw e (fraction_digits-point prec (v / 10) (ground arith) (omega (arith, pow-suc 10 prec)))
  | inr e ↦ rw e (fraction_digits-cons prec (v / 10) (digit v) [])
]

-- The texts of two times in one second compare the wrong way round where the earlier is a whole
-- second: its text comes after that of every later time in that second.
pub format_time_reversed :
    (date_text : ℕ → Text) (seconds nanos : ℕ)
    → 0 < nanos
    → nanos < 10 ^ 9
    → text_ltb
        (format_time date_text (record { seconds = seconds; nanos = nanos }))
        (format_time date_text (record { seconds = seconds; nanos = 0 }))
      ≡ true
unfolding format_time
format_time_reversed date_text seconds nanos h k =
    let (rest, e) = fraction_digits-point 9 nanos h k in
    text_ltb-append (date_text seconds) _ _ ∙ rw e (unfold text_ltb fraction_digits in refl)
