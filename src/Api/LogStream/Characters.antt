-- ===== src/Api/LogStream/Characters.antt =====
-- The events of internal/api/logs_stream.go as characters: an EventSource decodes the bytes of the
-- response from UTF-8 before it looks for lines. The encoding of a character is an argument.
use openpreflight.Prelude.{
  ℕ, ◌≤◌, ◌<◌, ◌≡◌, refl, sym, ap, ◌∙◌, inl, inr, false, List, [], ◌∷◌, ◌++◌, map, append_assoc,
  append-nil, arith, Bool-cases, ◌==◌, ltb, any, All, is_nil,
}
use openpreflight.Go.Strings.{Text, codes, split, before_first}
use openpreflight.Go.Strings.Split.{split_some}
use openpreflight.Api.LogStream.{data_lines, write_sse_data}
use openpreflight.Api.LogStream.Events.{events, messages, messages-events}

-- The bytes of a text, each character encoded for itself.
abbrev pub encode : (ℕ → Text) → Text → Text
encode utf8 [] = []
encode utf8 (c ∷ s) = utf8 c ++ encode utf8 s

-- What the program relies on of UTF-8: an ASCII character is its own byte, and no other character has an
-- ASCII byte in it.
pub record IsUtf8 (utf8 : ℕ → Text) : Type 0 where
  pub ascii : (c : ℕ) → c < 128 → utf8 c ≡ c ∷ []
  pub high : (c : ℕ) → 128 ≤ c → All (λ b. 128 ≤ b) (utf8 c)

-- A run of bytes in front of the first part.
abbrev in_front : Text → List Text → List Text
in_front xs [] = xs ∷ []
in_front xs (run ∷ runs) = (xs ++ run) ∷ runs

before_first-in_front :
    (c : ℕ) (xs : Text) (runs : List Text)
    → before_first c (in_front xs runs) ≡ in_front (c ∷ xs) runs
before_first-in_front c xs [] = refl
before_first-in_front c xs (run ∷ runs) = refl

in_front-nil : (runs : List Text) → is_nil runs ≡ false → in_front [] runs ≡ runs
in_front-nil [] h = cc
in_front-nil (run ∷ runs) h = refl

split-append :
    (sep : ℕ) (xs ys : Text)
    → All (λ b. (b == sep) ≡ false) xs
    → split sep (xs ++ ys) ≡ in_front xs (split sep ys)
unfolding split
split-append sep [] ys h = sym (in_front-nil (split sep ys) (split_some sep ys))
split-append sep (c ∷ xs) ys (h, hs) =
    rw h
      (ap (before_first c) (split-append sep xs ys hs) ∙ before_first-in_front c xs (split sep ys))

module _ (utf8 : ℕ → Text) (u : IsUtf8 utf8) where
  encode-append : (s t : Text) → encode utf8 (s ++ t) ≡ encode utf8 s ++ encode utf8 t
  encode-append [] t = refl
  encode-append (c ∷ s) t =
      ap (λ r. utf8 c ++ r) (encode-append s t)
      ∙ sym (append_assoc (utf8 c) (encode utf8 s) (encode utf8 t))

  encode-ascii : (s t : Text) → All (λ c. c < 128) s → encode utf8 (s ++ t) ≡ s ++ encode utf8 t
  encode-ascii [] t h = refl
  encode-ascii (c ∷ s) t (h, hs) =
      ap (λ r. r ++ encode utf8 (s ++ t)) (u.ascii c h) ∙ ap (λ r. c ∷ r) (encode-ascii s t hs)

  high_no_break : (bytes : Text) → All (λ b. 128 ≤ b) bytes → All (λ b. (b == 0x0a) ≡ false) bytes
  high_no_break [] h = tt
  high_no_break (b ∷ bytes) (h, hs) = (ground (arith, h), high_no_break bytes hs)

  no_break : (c : ℕ) → (c == 0x0a) ≡ false → All (λ b. (b == 0x0a) ≡ false) (utf8 c)
  no_break c h = elim (Bool-cases (ltb c 128)) [
    | inl e ↦ rw (u.ascii c (ground (arith, e))) (h, tt)
    | inr e ↦ high_no_break (utf8 c) (u.high c (ground (arith, e)))
  ]

  map-before_first :
      (c : ℕ) (runs : List Text)
      → map (encode utf8) (before_first c runs) ≡ in_front (utf8 c) (map (encode utf8) runs)
  map-before_first c [] = ap (λ r. r ∷ []) (append-nil (utf8 c))
  map-before_first c (run ∷ runs) = refl

  -- The lines of a text's bytes are the bytes of its lines.
  split-encode : (s : Text) → split 0x0a (encode utf8 s) ≡ map (encode utf8) (split 0x0a s)
  unfolding split
  split-encode [] = refl
  split-encode (c ∷ s) = elim (Bool-cases (c == 0x0a)) [
    | inl e ↦
        ap (λ r. split 0x0a (r ++ encode utf8 s)) (u.ascii c (ground (arith, e)))
        ∙ rw e (ap (λ r. [] ∷ r) (split-encode s))
    | inr e ↦
        split-append 0x0a (utf8 c) (encode utf8 s) (no_break c e)
        ∙ (ap (in_front (utf8 c)) (split-encode s)
            ∙ (sym (map-before_first c (split 0x0a s)) ∙ rw e refl))
  ]

  encode-line : (s t : Text) → encode utf8 (s ++ 0x0a ∷ t) ≡ encode utf8 s ++ 0x0a ∷ encode utf8 t
  encode-line s t =
      encode-append s (0x0a ∷ t)
      ∙ ap (λ r. encode utf8 s ++ r) (encode-ascii (0x0a ∷ []) t (omega arith, tt))

  data_ascii : All (λ c. c < 128) (codes "data: ")
  data_ascii =
      (omega arith, (omega arith, (omega arith, (omega arith, (omega arith, (omega arith, tt))))))

  data_lines-encode :
      (lines : List Text) → data_lines (map (encode utf8) lines) ≡ encode utf8 (data_lines lines)
  data_lines-encode [] = refl
  data_lines-encode (line ∷ lines) =
      ap (λ r. codes "data: " ++ (encode utf8 line ++ 0x0a ∷ r)) (data_lines-encode lines)
      ∙ (ap (λ r. codes "data: " ++ r) (sym (encode-line line (data_lines lines)))
          ∙ sym (encode-ascii (codes "data: ") (line ++ 0x0a ∷ data_lines lines) data_ascii))

  write_sse_data-encode :
      (s : Text) → write_sse_data (encode utf8 s) ≡ encode utf8 (write_sse_data s)
  unfolding write_sse_data
  write_sse_data-encode s =
      ap (λ r. data_lines r ++ 0x0a ∷ []) (split-encode s)
      ∙ (ap (λ r. r ++ 0x0a ∷ []) (data_lines-encode (split 0x0a s))
          ∙ sym (encode-line (data_lines (split 0x0a s)) []))

  events-encode :
      (texts : List Text) → events (map (encode utf8) texts) ≡ encode utf8 (events texts)
  events-encode [] = refl
  events-encode (s ∷ texts) =
      ap (λ r. r ++ events (map (encode utf8) texts)) (write_sse_data-encode s)
      ∙ (ap (λ r. encode utf8 (write_sse_data s) ++ r) (events-encode texts)
          ∙ sym (encode-append (write_sse_data s) (events texts)))

-- A browser, which decodes the response from UTF-8, reads the chunks back as text, one message for each, if
-- each chunk is the encoding of whole characters, none of them a carriage return.
pub messages-decode :
    (utf8 : ℕ → Text) (decode : Text → Text) (texts : List Text)
    → IsUtf8 utf8
    → ((s : Text) → decode (encode utf8 s) ≡ s)
    → All (λ s. any (λ c. c == 0x0d) s ≡ false) texts
    → messages (decode (events (map (encode utf8) texts))) ≡ texts
messages-decode utf8 decode texts u decodes clean =
    ap (λ s. messages (decode s)) (events-encode utf8 u texts)
    ∙ (ap messages (decodes (events texts)) ∙ messages-events texts clean)
