-- ===== src/Go/PathMatch.antt =====
-- Go's path.Match. `none` is ErrBadPattern. Each loop reads a character of the pattern in every
-- round, so the pattern's length is enough fuel.
use openpreflight.Prelude.{
  ℕ, zero, suc, ◌≡◌, refl, Bool, true, false, not, ◌&&◌, ◌||◌, [], ◌∷◌, Option, none, some, leb,
  ◌==◌, if◌then◌else◌, length, is_nil, any, ◌>>=◌,
}
use openpreflight.Go.Strings.{Text, codes}

-- `getEsc`.
behind_char : ℕ → Text → Option (ℕ × Text)
behind_char c [] = none
behind_char c (d ∷ rest) = some (c, d ∷ rest)

get_esc : Text → Option (ℕ × Text)
unfolding behind_char
get_esc [] = none
get_esc (c ∷ []) = none
get_esc (c ∷ d ∷ rest) =
    if c == b'-' || c == b']'
    then none
    else if c == b'\\'
    then behind_char d rest
    else behind_char c (d ∷ rest)

-- The upper end of a range, behind a `-`.
range_end : ℕ → Text → Option (ℕ × Text)
unfolding get_esc
range_end lo [] = none
range_end lo (c ∷ rest) = if c == b'-' then get_esc rest else some (lo, c ∷ rest)

-- The ranges of a character class up to its `]`.
class_ranges : ℕ → ℕ → Bool → Bool → Text → Option (Bool × Text)
unfolding range_end
class_ranges zero r seen matched chunk = none
class_ranges (suc fuel) r seen matched [] = none
class_ranges (suc fuel) r seen matched (c ∷ chunk) =
    let further = (do
      (lo, chunk₁) ← get_esc (c ∷ chunk)
      (hi, chunk₂) ← range_end lo chunk₁
      class_ranges fuel r true (matched || leb lo r && leb r hi) chunk₂) in
    if c == b']' && seen then some (matched, chunk) else further

negated_class : ℕ → Text → Option (Bool × Text)
unfolding class_ranges
negated_class r [] = none
negated_class r (c ∷ chunk) =
    if c == b'^'
    then (do
      (matched, rest) ← class_ranges (length chunk) r false false chunk
      some (not matched, rest))
    else class_ranges (suc (length chunk)) r false false (c ∷ chunk)

-- The name, while the match has not failed: `none` is the flag `failed`.
abbrev advance : (ℕ → Bool) → Option Text → Option Text
advance p none = none
advance p (some []) = none
advance p (some (c ∷ s)) = if p c then some s else none

-- The character that a class is tested with, and the name behind it.
abbrev class_step : Bool → Option Text → Option Text
class_step matched s = advance (λ c. matched) s

abbrev class_char : Option Text → ℕ
class_char none = 0
class_char (some []) = 0
class_char (some (c ∷ s)) = c

-- `matchChunk`.
unfoldable pub match_chunk : ℕ → Text → Option Text → Option (Option Text)
unfolding negated_class
match_chunk fuel [] s = some s
match_chunk zero (c ∷ chunk) s = none
match_chunk (suc fuel) (c ∷ []) s =
    if c == b'[' || c == b'\\'
    then none
    else if c == b'?'
    then some (advance (λ d. not (d == b'/')) s)
    else some (advance (λ d. c == d) s)
match_chunk (suc fuel) (c ∷ d ∷ chunk) s =
    let in_class = (do
      (matched, rest) ← negated_class (class_char s) (d ∷ chunk)
      match_chunk fuel rest (class_step matched s)) in
    let any_char = match_chunk fuel (d ∷ chunk) (advance (λ e. not (e == b'/')) s) in
    let escaped = match_chunk fuel chunk (advance (λ e. d == e) s) in
    let plain = match_chunk fuel (d ∷ chunk) (advance (λ e. c == e) s) in
    if c == b'['
    then in_class
    else if c == b'?'
    then any_char
    else if c == b'\\'
    then escaped
    else plain

-- `scanChunk`: the stars, then the text up to the next star outside a class.
unfoldable pub skip_stars : Text → Bool × Text
skip_stars [] = (false, [])
skip_stars (c ∷ s) = if c == b'*' then (true, (skip_stars s).1) else (false, c ∷ s)

unfoldable pub scan : Bool → Text → Text × Text
scan in_range [] = ([], [])
scan in_range (c ∷ []) = if c == b'*' && not in_range then ([], c ∷ []) else (c ∷ [], [])
scan in_range (c ∷ d ∷ s) =
    let (chunk, rest) = scan (c == b'[' || not (c == b']') && in_range) (d ∷ s) in
    let (chunk', rest') = scan in_range s in
    if c == b'\\'
    then (c ∷ d ∷ chunk', rest')
    else if c == b'*' && not in_range
    then ([], c ∷ d ∷ s)
    else (c ∷ chunk, rest)

match_here : Text → Text → Option (Option Text)
unfolding match_chunk
match_here chunk s = match_chunk (length chunk) chunk (some s)

-- What matching a chunk at one place says: a bad pattern, a usable match with the rest, or none.
abbrev usable : Bool → Option Text → Option Text
usable last none = none
usable last (some t) = if last && not (is_nil t) then none else some t

-- The search behind a star, at the names that end after each character up to the next slash.
search_star : Bool → Text → Text → Option (Option Text)
unfolding match_here
search_star last chunk [] = some none
search_star last chunk (c ∷ s) =
    let further = search_star last chunk s in
    if c == b'/' then some none else elim (match_here chunk s) [
      | none ↦ none
      | some m ↦ elim (usable last m) [ none ↦ further | some t ↦ some (some t) ]
    ]

-- The check that the rest of the pattern is well formed.
well_formed : ℕ → Text → Bool
unfolding skip_stars scan match_here
well_formed zero p = true
well_formed (suc fuel) [] = true
well_formed (suc fuel) (c ∷ p) =
    let (chunk, rest) = scan false (skip_stars (c ∷ p)).1 in
    elim (match_here chunk []) [ none ↦ false | some m ↦ well_formed fuel rest ]

match_rounds : ℕ → Text → Text → Option Bool
unfolding well_formed search_star
match_rounds fuel [] name = some (is_nil name)
match_rounds zero (c ∷ p) name = none
match_rounds (suc fuel) (c ∷ p) name =
    let (star, body) = skip_stars (c ∷ p) in
    let (chunk, rest) = scan false body in
    let last = is_nil rest in
    let bad_or_no : Option Bool = (if well_formed (length rest) rest then some false else none) in
    let behind : Option Bool = elim (search_star last chunk name) [
      | none ↦ none
      | some none ↦ bad_or_no
      | some (some t) ↦ match_rounds fuel rest t
    ] in
    if star && is_nil chunk
    then some (not (any (λ d. d == b'/') name))
    else elim (match_here chunk name) [
      | none ↦ none
      | some m ↦ elim (usable last m) [
        | some t ↦ match_rounds fuel rest t
        | none ↦ if star then behind else bad_or_no
      ]
    ]

unfoldable pub path_match : Text → Text → Option Bool
unfolding match_rounds
path_match pattern name = match_rounds (length pattern) pattern name

-- Whether the pattern is well formed and the name matches it.
unfoldable pub matches : Text → Text → Bool
unfolding path_match
matches pattern name = elim (path_match pattern name) [ none ↦ false | some b ↦ b ]

matches_tests :
    (path_match (codes "test_*.py") (codes "test_api.py") ≡ some true)
    × (path_match (codes "*.go") (codes "cmd/main.go") ≡ some false)
    × (path_match (codes "cmd/*/ma?n.[a-h]o") (codes "cmd/server/main.go") ≡ some true)
    × (path_match (codes "[]a]") (codes "]") ≡ none)
    × (path_match (codes "a*b*c") (codes "axxbyybzzc") ≡ some true)
    × (path_match (codes "docs/*") (codes "docs/a/b") ≡ some false)
    × (path_match (codes "[^a]\\*") (codes "b*") ≡ some true)
unfolding path_match
matches_tests = (refl, refl, refl, refl, refl, refl, refl)
