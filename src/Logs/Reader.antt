-- ===== src/Logs/Reader.antt =====
-- The readers of internal/logs/logs.go. A file that is not there is `none`; a failure to open or
-- read one that is there is not modelled.
use openpreflight.Prelude.{
  ℕ, ◌+◌, ◌-◌, ◌*◌, [], ◌∷◌, ◌++◌, Option, none, some, ℤ, pos_part, ltb, ◌==◌, if◌then◌else◌,
  length, take, drop, min,
}
use openpreflight.Go.Strings.{Text, codes}
use openpreflight.Logs.Ansi.{filter_bytes}

abbrev pub read_from_chunk : ℕ
read_from_chunk = 32 * 1024

-- `Read`.
unfoldable pub read : Option Text → Text
read none = []
read (some file) = (filter_bytes [] file).1

-- `ReadFrom`: the data, and the offset for the next call.
unfoldable pub read_from : Option Text → ℤ → Text × ℕ
read_from none offset = ([], 0)
read_from (some file) offset =
    let start = pos_part offset in
    let n = min (length file - start) read_from_chunk in
    if ltb (length file) start
    then ([], start)
    else if n == 0
    then ([], start)
    else (take n (drop start file), start + n)

-- The text behind the first line break, or the whole if there is none.
abbrev pub after_newline : Text → Option Text
after_newline [] = none
after_newline (c ∷ s) = if c == 0x0a then some s else after_newline s

abbrev pub or_whole : Text → Option Text → Text
or_whole s none = s
or_whole s (some t) = t

abbrev pub omitted : Text
omitted = 0x2026 ∷ codes " earlier output omitted " ++ 0x2026 ∷ 0x0a ∷ []

-- `Tail`: at most `n` bytes from the end, from the start of a line on.
unfoldable pub tail : Option Text → ℕ → Text
tail none n = []
tail (some file) n =
    let out = drop (length file - n) file in
    if ltb n (length file) then omitted ++ or_whole out (after_newline out) else out
