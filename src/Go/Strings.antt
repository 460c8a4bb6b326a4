-- ===== src/Go/Strings.antt =====
-- Go's package strings. A text is the list of its code points; the bytes of an ASCII text.
pub mod Fields
pub mod Split
pub mod Trim
use Prim.Native.Char.{code}
use Prim.Native.String.{String}
use openpreflight.Prelude.{
  ℕ, ◌+◌, ◌-◌, ◌≡◌, refl, ◌↔◌, Bool, true, false, ◌&&◌, ◌||◌, List, [], ◌∷◌, ◌++◌, reverse, leb,
  ◌==◌, if◌then◌else◌, length, take, drop, is_nil, arith,
}

abbrev pub Text : Type 0
Text = List ℕ

-- The text of a literal. `String` has its own `[]` and `∷`.
abbrev pub codes : String → Text
codes String.[] = []
codes (String.◌∷◌ c s) = code c ∷ codes s

-- `a == b` on strings.
unfoldable pub str_eq : Text → Text → Bool
str_eq [] [] = true
str_eq [] (d ∷ t) = false
str_eq (c ∷ s) [] = false
str_eq (c ∷ s) (d ∷ t) = c == d && str_eq s t

-- unicode.IsSpace: the White_Space property.
unfoldable pub is_space : ℕ → Bool
is_space c =
    leb 9 c && leb c 13
    || c == 32
    || c == 0x85
    || c == 0xA0
    || c == 0x1680
    || leb 0x2000 c && leb c 0x200a
    || c == 0x2028
    || c == 0x2029
    || c == 0x202f
    || c == 0x205f
    || c == 0x3000

-- strings.TrimLeftFunc.
unfoldable pub trim_left : (ℕ → Bool) → Text → Text
trim_left p [] = []
trim_left p (c ∷ s) = if p c then trim_left p s else c ∷ s

-- strings.TrimRightFunc.
unfoldable pub trim_right : (ℕ → Bool) → Text → Text
unfolding trim_left
trim_right p s = reverse (trim_left p (reverse s))

unfoldable pub trim_space : Text → Text
unfolding trim_right trim_left is_space
trim_space s = trim_right is_space (trim_left is_space s)

-- strings.Trim, with its set of characters as a test.
unfoldable pub trim : (ℕ → Bool) → Text → Text
unfolding trim_right trim_left
trim p s = trim_right p (trim_left p s)

unfoldable pub has_prefix : Text → Text → Bool
has_prefix s [] = true
has_prefix [] (d ∷ p) = false
has_prefix (c ∷ s) (d ∷ p) = c == d && has_prefix s p

unfoldable pub has_suffix : Text → Text → Bool
unfolding has_prefix
has_suffix s p = has_prefix (reverse s) (reverse p)

unfoldable pub trim_prefix : Text → Text → Text
unfolding has_prefix
trim_prefix s p = if has_prefix s p then drop (length p) s else s

unfoldable pub trim_suffix : Text → Text → Text
unfolding has_suffix
trim_suffix s p = if has_suffix s p then take (length s - length p) s else s

-- strings.Contains.
unfoldable pub contains : Text → Text → Bool
unfolding has_prefix
contains [] p = is_nil p
contains (c ∷ s) p = has_prefix (c ∷ s) p || contains s p

-- strings.FieldsFunc: the maximal runs of characters that fail the test. The first argument is the
-- run that is open.
fields_from : (ℕ → Bool) → Text → Text → List Text
fields_from p run [] = if is_nil run then [] else run ∷ []
fields_from p run (c ∷ s) =
    let cut = (if is_nil run then fields_from p [] s else run ∷ fields_from p [] s) in
    let grown = fields_from p (run ++ c ∷ []) s in if p c then cut else grown

unfoldable pub fields_func : (ℕ → Bool) → Text → List Text
unfolding fields_from
fields_func p s = fields_from p [] s

-- strings.Fields.
unfoldable pub fields : Text → List Text
unfolding fields_func is_space
fields s = fields_func is_space s

-- strings.Join.
unfoldable pub join : List Text → Text → Text
join [] sep = []
join (s ∷ []) sep = s
join (s ∷ t ∷ rest) sep = s ++ (sep ++ join (t ∷ rest) sep)

-- strings.ToLower on the ASCII letters; other letters of the program's values are left alone.
unfoldable pub lower : ℕ → ℕ
lower c = if leb b'A' c && leb c b'Z' then c + 32 else c

-- The simple case folding that ASCII letters take part in.
fold : ℕ → ℕ
fold c = if c == 0x17F then b's' else if c == 0x212A then b'k' else lower c

-- strings.EqualFold, where one side is ASCII.
unfoldable pub equal_fold : Text → Text → Bool
unfolding fold lower
equal_fold [] [] = true
equal_fold [] (d ∷ t) = false
equal_fold (c ∷ s) [] = false
equal_fold (c ∷ s) (d ∷ t) = fold c == fold d && equal_fold s t

abbrev pub before_first : ℕ → List Text → List Text
before_first c [] = (c ∷ []) ∷ []
before_first c (run ∷ runs) = (c ∷ run) ∷ runs

-- strings.Split by one byte.
unfoldable pub split : ℕ → Text → List Text
split sep [] = [] ∷ []
split sep (c ∷ s) = if c == sep then [] ∷ split sep s else before_first c (split sep s)

pub str_eq_iff : (s t : Text) → (str_eq s t ≡ true) ↔ (s ≡ t)
unfolding str_eq
str_eq_iff [] [] = ground arith
str_eq_iff [] (d ∷ t) = ground arith
str_eq_iff (c ∷ s) [] = ground arith
str_eq_iff (c ∷ s) (d ∷ t) = ground (arith, str_eq_iff s t)

pub str_eq_refl : (s : Text) → str_eq s s ≡ true
str_eq_refl s = (str_eq_iff s s).1 refl

pub has_prefix-append : (p s : Text) → has_prefix (p ++ s) p ≡ true
unfolding has_prefix
has_prefix-append [] s = refl
has_prefix-append (c ∷ p) s = ground (arith, has_prefix-append p s)
