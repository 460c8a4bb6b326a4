-- ===== src/Tests/Output.antt =====
-- The logs of internal/logs.
use openpreflight.Prelude.{◌≡◌, refl, [], ◌∷◌, ◌++◌, some, pos, arith}
use openpreflight.Go.Strings.{Text, codes}
use openpreflight.Logs.Ansi.{filter_bytes}
use openpreflight.Logs.Ansi.Streams.{filter_bytes-append}
use openpreflight.Logs.Writer.{Writer, create, write, truncation_notice}
use openpreflight.Logs.Writer.Views.{through}
use openpreflight.Logs.Writer.Refinement.{LogOf, stream, writes, writes-LogOf}
use openpreflight.Logs.Reader.{tail}

-- A red "ok".
abbrev red : Text
red = 0x1b ∷ codes "[31mok" ++ 0x1b ∷ codes "[0m"

filter_bytes-append_example : filter_bytes [] (red ++ red) ≡ (
  (filter_bytes (filter_bytes [] red).0 red).0,
  (filter_bytes [] red).1 ++ (filter_bytes (filter_bytes [] red).0 red).1,
)
filter_bytes-append_example = filter_bytes-append [] red red

red_filtered : filter_bytes [] red ≡ ([], codes "ok")
unfolding filter_bytes
red_filtered = refl

write_test :
    (write 100 (red ++ codes "!") (create (pos 2))).contents ≡ codes "ok" ++ truncation_notice 2
unfolding write create filter_bytes openpreflight.Logs.Writer.append_chunk
write_test = refl

exact_cap_test : (write 100 (codes "!") (write 100 red (create (pos 2)))).contents ≡ codes "ok"
unfolding write create filter_bytes openpreflight.Logs.Writer.append_chunk
exact_cap_test = refl

tail_test :
    tail (some (codes "ab\ncd\nef")) 4
    ≡ 0x2026 ∷ codes " earlier output omitted " ++ 0x2026 ∷ 0x0a ∷ codes "ef"
unfolding tail
tail_test = refl

writes-LogOf_example :
    LogOf 2
      (through (stream ((100, red) ∷ (100, codes "!") ∷ [])))
      (writes ((100, red) ∷ (100, codes "!") ∷ []) (create (pos 2)))
writes-LogOf_example =
    writes-LogOf 2 ((100, red) ∷ (100, codes "!") ∷ []) (omega arith) (omega arith)
