-- ===== src/Logs/Ansi.antt =====
-- internal/logs/ansi.go: the filter that drops ANSI escape sequences from a stream of bytes.
pub mod Streams
use openpreflight.Prelude.{
  ℕ, zero, suc, ◌+◌, Bool, true, false, not, ◌&&◌, ◌||◌, List, [], ◌∷◌, ◌++◌, ltb, leb, ◌==◌,
  if◌then◌else◌, is_nil, any, length, ◌≡◌, refl,
}
use openpreflight.Go.Strings.{Text, codes}

abbrev pub esc_cap : ℕ
esc_cap = 128

abbrev pub esc_byte : ℕ
esc_byte = 0x1b

-- The last byte, and whether the one before it is ESC.
last_of : ℕ → Text → ℕ
last_of c [] = c
last_of c (d ∷ s) = last_of d s

esc_before_last : Text → Bool
esc_before_last [] = false
esc_before_last (c ∷ []) = false
esc_before_last (c ∷ d ∷ []) = c == esc_byte
esc_before_last (c ∷ d ∷ e ∷ s) = esc_before_last (d ∷ e ∷ s)

-- `ansiFilter.done`, on the bytes that are held.
unfoldable pub is_done : Text → Bool
unfolding last_of esc_before_last
is_done [] = false
is_done (c ∷ []) = false
is_done (c ∷ d ∷ s) =
    let last = last_of d s in
    if d == b'['
    then not (is_nil s) && (leb 0x40 last && leb last 0x7e)
    else if d == b']'
    then last == 0x07 || (not (is_nil s) && (last == b'\\' && esc_before_last (c ∷ d ∷ s)))
    else true

-- A sequence that is still open after one more byte, or nothing.
unfoldable pub held : Text → Text
held esc = if is_done esc || leb esc_cap (length esc) then [] else esc

-- The loop of `ansiFilter.filter`: the bytes that are held at the end, and what was let through.
unfoldable pub filter_loop : Text → Text → Text × Text
filter_loop esc [] = (esc, [])
filter_loop [] (c ∷ p) =
    let inside = filter_loop (c ∷ []) p in
    let (esc', out) = filter_loop [] p in if c == esc_byte then inside else (esc', c ∷ out)
filter_loop (e ∷ esc) (c ∷ p) = filter_loop (held (e ∷ (esc ++ c ∷ []))) p

-- With the shortcut for a write that holds no ESC.
unfoldable pub filter_bytes : Text → Text → Text × Text
unfolding filter_loop held is_done
filter_bytes esc p =
    if is_nil esc && not (any (λ c. c == esc_byte) p) then (esc, p) else filter_loop esc p

filter_tests :
    (filter_bytes [] (esc_byte ∷ codes "[42mok" ++ esc_byte ∷ codes "[0m!") ≡ ([], codes "ok!"))
    × (filter_bytes [] (codes "a" ++ esc_byte ∷ codes "[3") ≡ (esc_byte ∷ codes "[3", codes "a"))
    × (filter_bytes (esc_byte ∷ codes "[3") (codes "1mred") ≡ ([], codes "red"))
    × (filter_bytes [] (esc_byte ∷ codes "]0;title" ++ esc_byte ∷ codes "\\x") ≡ ([], codes "x"))
unfolding filter_bytes
filter_tests = (refl, refl, refl, refl)
