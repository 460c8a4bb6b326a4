-- ===== src/Logs/Writer/Prefixes.antt =====
-- The beginnings of a log's text.
use openpreflight.Prelude.{
  ℕ, zero, suc, ◌-◌, ◌≤◌, ◌≡◌, refl, sym, ap, ◌∙◌, [], ◌∷◌, ◌++◌, arith, length, take,
}
use openpreflight.Go.Strings.{Text}

pub take-append_shorter :
    (n : ℕ) (xs ys : Text) → length xs ≤ n → take n (xs ++ ys) ≡ xs ++ take (n - length xs) ys
take-append_shorter n [] ys h = ground arith
take-append_shorter zero (x ∷ xs) ys h = absurd (omega arith)
take-append_shorter (suc n) (x ∷ xs) ys h =
    let fewer : suc n - suc (length xs) ≡ n - length xs = omega arith in
    ap (λ r. x ∷ r)
      (take-append_shorter n xs ys (omega arith) ∙ ap (λ k. xs ++ take k ys) (sym fewer))

pub take-append_longer : (n : ℕ) (xs ys : Text) → n ≤ length xs → take n (xs ++ ys) ≡ take n xs
take-append_longer zero xs ys h = refl
take-append_longer (suc n) [] ys h = absurd (omega arith)
take-append_longer (suc n) (x ∷ xs) ys h =
    ap (λ r. x ∷ r) (take-append_longer n xs ys (omega arith))

pub take_all : (n : ℕ) (xs : Text) → length xs ≤ n → take n xs ≡ xs
take_all zero [] h = refl
take_all zero (x ∷ xs) h = absurd (omega arith)
take_all (suc n) [] h = refl
take_all (suc n) (x ∷ xs) h = ap (λ r. x ∷ r) (take_all n xs (omega arith))

length-take_exact : (n : ℕ) (xs : Text) → n ≤ length xs → length (take n xs) ≡ n
length-take_exact zero xs h = refl
length-take_exact (suc n) [] h = absurd (omega arith)
length-take_exact (suc n) (x ∷ xs) h = omega (arith, length-take_exact n xs (omega arith))

pub length-take_room : (max room : ℕ) (k : Text) → length k ≤ room → length (take max k) ≤ room
length-take_room zero room k h = omega arith
length-take_room (suc max) room [] h = omega arith
length-take_room (suc max) zero (x ∷ k) h = absurd (omega arith)
length-take_room (suc max) (suc room) (x ∷ k) h =
    omega (arith, length-take_room max room k (omega arith))
