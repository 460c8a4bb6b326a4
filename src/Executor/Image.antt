-- ===== src/Executor/Image.antt =====
-- internal/executor/image.go: `ValidImage`, its regular expression as an automaton on the text.
use openpreflight.Prelude.{
  ℕ, ◌+◌, Bool, true, false, not, ◌&&◌, ◌||◌, [], ◌∷◌, leb, ◌==◌, if◌then◌else◌, length, drop, any,
  is_nil,
}
use openpreflight.Go.Strings.{Text, codes, trim_space, has_prefix}

-- [A-Za-z0-9]
abbrev pub is_alnum : ℕ → Bool
is_alnum c = leb b'a' c && leb c b'z' || (leb b'A' c && leb c b'Z' || leb b'0' c && leb c b'9')

-- [._-]
abbrev pub is_joint : ℕ → Bool
is_joint c = c == b'.' || (c == b'_' || c == b'-')

-- [a-f0-9]
abbrev is_hex : ℕ → Bool
is_hex c = leb b'a' c && leb c b'f' || leb b'0' c && leb c b'9'

abbrev pub every : (ℕ → Bool) → Text → Bool
every p [] = true
every p (c ∷ s) = p c && every p s

-- (@sha256:[a-f0-9]{64})?, behind the @.
unfoldable pub is_digest : Text → Bool
is_digest s = has_prefix s (codes "sha256:") && (every is_hex (drop 7 s) && length (drop 7 s) == 64)

-- (:[A-Za-z0-9._-]{1,128})? and what follows, behind n characters of the tag.
unfoldable pub is_tag : ℕ → Text → Bool
is_tag n [] = leb 1 n && leb n 128
is_tag n (c ∷ s) =
    let longer = is_tag (n + 1) s in
    if is_alnum c || is_joint c
    then longer
    else c == b'@' && (leb 1 n && (leb n 128 && is_digest s))

-- The name and what follows; the test says that a letter or digit has to come.
unfoldable pub is_image : Bool → Text → Bool
unfolding is_tag is_digest
is_image needs [] = not needs
is_image needs (c ∷ s) =
    let within = is_image false s in
    let begun = is_image true s in
    if is_alnum c
    then within
    else if needs
    then false
    else if is_joint c || c == b'/'
    then begun
    else if c == b':'
    then is_tag 0 s
    else c == b'@' && is_digest s

-- The characters " \t\n$;&|<>`()\\".
abbrev is_illegal : ℕ → Bool
is_illegal c =
    any (λ d. c == d)
      (32 ∷ 9 ∷ 10 ∷ b'$' ∷ b';' ∷ b'&' ∷ b'|' ∷ b'<' ∷ b'>' ∷ 96 ∷ b'(' ∷ b')' ∷ 92 ∷ [])

-- `ValidImage` returns no error.
unfoldable pub valid_image : Text → Bool
unfolding is_image
valid_image name =
    let s = trim_space name in
    not (is_nil s)
    && (leb (length s) 255
        && (not (any is_illegal s || has_prefix s (codes "-")) && is_image true s))
