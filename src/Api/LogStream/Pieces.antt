-- ===== src/Api/LogStream/Pieces.antt =====
-- The pieces of a log that one turn of `send` passes on (internal/api/logs_stream.go).
use openpreflight.Prelude.{
  ℕ, zero, suc, ◌+◌, ◌-◌, ◌≡◌, refl, sym, ap, ◌∙◌, [], ◌∷◌, ◌++◌, length, take, drop, min, arith,
}
use openpreflight.Go.Strings.{Text}

pub take-take : (j n : ℕ) (xs : Text) → take j (take n xs) ≡ take (length (take j (take n xs))) xs
take-take zero n xs = refl
take-take (suc j) zero xs = refl
take-take (suc j) (suc n) [] = refl
take-take (suc j) (suc n) (x ∷ xs) = ap (λ r. x ∷ r) (take-take j n xs)

pub take_self : (n : ℕ) (xs : Text) → take n xs ≡ take (length (take n xs)) xs
take_self zero xs = refl
take_self (suc n) [] = refl
take_self (suc n) (x ∷ xs) = ap (λ r. x ∷ r) (take_self n xs)

pub length-take : (n : ℕ) (xs : Text) → length (take n xs) ≡ min n (length xs)
length-take zero xs = omega arith
length-take (suc n) [] = omega arith
length-take (suc n) (x ∷ xs) = omega (arith, length-take n xs)

pub length-drop : (n : ℕ) (xs : Text) → length (drop n xs) ≡ length xs - n
length-drop zero xs = omega arith
length-drop (suc n) [] = omega arith
length-drop (suc n) (x ∷ xs) = omega (arith, length-drop n xs)

take_nil : (n : ℕ) → take {A = ℕ} n [] ≡ []
take_nil zero = refl
take_nil (suc n) = refl

plus_suc : (m n : ℕ) → suc m + n ≡ suc (m + n)
plus_suc m n = omega arith

pub take-add : (a b : ℕ) (xs : Text) → take (a + b) xs ≡ take a xs ++ take b (drop a xs)
take-add zero b xs = ap (λ k. take k xs) (omega arith)
take-add (suc a) b [] = take_nil (suc a + b) ∙ sym (take_nil b)
take-add (suc a) b (x ∷ xs) =
    ap (λ k. take k (x ∷ xs)) (plus_suc a b) ∙ ap (λ r. x ∷ r) (take-add a b xs)
