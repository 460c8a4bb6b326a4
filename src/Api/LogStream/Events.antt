-- ===== src/Api/LogStream/Events.antt =====
-- The events of internal/api/logs_stream.go, as a browser's EventSource reads them: by the lines of
-- the HTML standard, which end at a line feed, a carriage return, or both.
use openpreflight.Prelude.{
  ℕ, ◌≡◌, refl, sym, ap, ◌∙◌, Bool, true, false, ◌||◌, List, [], ◌∷◌, ◌++◌, append_assoc,
  append-nil, arith, ◌==◌, if◌then◌else◌, is_nil, drop, any, All,
}
use openpreflight.Go.Strings.{Text, codes, split, join, has_prefix, str_eq}
use openpreflight.Go.Strings.Split.{split_some, join-split, split-any}
use openpreflight.Api.LogStream.{data_lines, write_sse_data}

-- The lines that have ended; `after` is whether the last byte was a carriage return.
unfoldable pub event_lines : Bool → Text → Text → List Text
event_lines after line [] = []
event_lines after line (c ∷ s) =
    if c == 0x0a
    then (if after then event_lines false [] s else line ∷ event_lines false [] s)
    else if c == 0x0d
    then line ∷ event_lines true [] s
    else event_lines false (line ++ c ∷ []) s

abbrev pub without_space : Text → Text
without_space [] = []
without_space (c ∷ s) = if c == 0x20 then s else c ∷ s

-- A line's part in the event's data; other fields have none.
unfoldable pub add_field : Text → List Text → List Text
add_field line buffer =
    if has_prefix line (codes "data:")
    then buffer ++ without_space (drop 5 line) ∷ []
    else if str_eq line (codes "data")
    then buffer ++ [] ∷ []
    else buffer

-- The data of the events that a blank line ends.
unfoldable pub dispatched : List Text → List Text → List Text
dispatched buffer [] = []
dispatched buffer (line ∷ lines) =
    let after = dispatched [] lines in
    let within = dispatched (add_field line buffer) lines in
    if is_nil line
    then (if is_nil buffer then after else join buffer (0x0a ∷ []) ∷ after)
    else within

-- The messages of a response.
abbrev pub messages : Text → List Text
messages body = dispatched [] (event_lines false [] body)

abbrev pub ends_line : ℕ → Bool
ends_line c = c == 0x0a || c == 0x0d

event_lines-line :
    (line cur rest : Text)
    → any ends_line line ≡ false
    → event_lines false cur (line ++ 0x0a ∷ rest) ≡ (cur ++ line) ∷ event_lines false [] rest
unfolding event_lines
event_lines-line [] cur rest h = ap (λ r. r ∷ event_lines false [] rest) (sym (append-nil cur))
event_lines-line (c ∷ line) cur rest h =
    let lf : (c == 0x0a) ≡ false = ground (arith, h) in
    let cr : (c == 0x0d) ≡ false = ground (arith, h) in
    rw (lf, cr)
      (event_lines-line line (cur ++ c ∷ []) rest (ground (arith, h))
        ∙ ap (λ r. r ∷ event_lines false [] rest) (append_assoc cur (c ∷ []) line))

data-add_field :
    (line : Text) (buffer : List Text)
    → add_field (codes "data: " ++ line) buffer ≡ buffer ++ line ∷ []
unfolding add_field has_prefix
data-add_field line buffer = refl

filled :
    (buffer : List Text) (line : Text) (lines : List Text)
    → is_nil ((buffer ++ line ∷ []) ++ lines) ≡ false
filled [] line lines = refl
filled (b ∷ buffer) line lines = refl

-- A line of data goes to the buffer.
dispatched-data :
    (lines buffer : List Text) (rest : Text)
    → All (λ line. any ends_line line ≡ false) lines
    → is_nil (buffer ++ lines) ≡ false
    → dispatched buffer (event_lines false [] (data_lines lines ++ 0x0a ∷ rest))
      ≡ join (buffer ++ lines) (0x0a ∷ []) ∷ messages rest
unfolding dispatched event_lines
dispatched-data [] buffer rest h some_line =
    let filled_ : is_nil buffer ≡ false = sym (ap is_nil (append-nil buffer)) ∙ some_line in
    rw (append-nil buffer, filled_) refl
dispatched-data (line ∷ lines) buffer rest (h, hs) some_line =
    ap (λ s. dispatched buffer (event_lines false [] (codes "data: " ++ s)))
      (append_assoc line (0x0a ∷ data_lines lines) (0x0a ∷ rest))
    ∙ (ap (dispatched buffer)
          (event_lines-line (codes "data: " ++ line) [] (data_lines lines ++ 0x0a ∷ rest) h)
        ∙ (ap (λ b. dispatched b (event_lines false [] (data_lines lines ++ 0x0a ∷ rest)))
              (data-add_field line buffer)
            ∙ (dispatched-data lines (buffer ++ line ∷ []) rest hs (filled buffer line lines)
                ∙ ap (λ b. join b (0x0a ∷ []) ∷ messages rest)
                    (append_assoc buffer (line ∷ []) lines))))

-- The bytes that are written for chunks, one event for each.
abbrev pub events : List Text → Text
events [] = []
events (chunk ∷ chunks) = write_sse_data chunk ++ events chunks

as_lines :
    (chunk rest : Text)
    → write_sse_data chunk ++ rest ≡ data_lines (split 0x0a chunk) ++ 0x0a ∷ rest
unfolding write_sse_data
as_lines chunk rest = append_assoc (data_lines (split 0x0a chunk)) (0x0a ∷ []) rest

-- A browser reads the chunks back, one message for each, if no chunk holds a carriage return.
pub messages-events :
    (chunks : List Text)
    → All (λ chunk. any (λ c. c == 0x0d) chunk ≡ false) chunks
    → messages (events chunks) ≡ chunks
messages-events [] h = unfold event_lines dispatched in refl
messages-events (chunk ∷ chunks) (h, hs) =
    ap messages (as_lines chunk (events chunks))
    ∙ (dispatched-data (split 0x0a chunk) [] (events chunks)
          (split-any ends_line (λ c. c == 0x0d) 0x0a (λ c e f. ground (arith, e, f)) chunk h)
          (split_some 0x0a chunk)
        ∙ cc (join-split 0x0a chunk, messages-events chunks hs))
