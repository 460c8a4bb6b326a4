-- ===== src/Api/LogStream/Sending.antt =====
-- The loop `send` of internal/api/logs_stream.go returns, and what it has sent then.
use openpreflight.Prelude.{
  ℕ, zero, suc, ◌+◌, ◌-◌, ◌≤◌, ◌<◌, ◌≡◌, refl, sym, ap, ◌∙◌, ◌⊎◌, inl, inr, true, false, ◌&&◌, List,
  [], ◌∷◌, ◌++◌, append_assoc, append-nil, Option, none, some, ℤ, pos, is_positive, length-append,
  pos_part, ltb, leb, ◌==◌, ==_iff, is_nil, length, take, drop, min, arith, Bool-cases,
}
use openpreflight.Go.Strings.{Text}
use openpreflight.Logs.Reader.{read_from, read_from_chunk}
use openpreflight.Logs.Writer.Prefixes.{take-append_longer}
use openpreflight.Api.LogStream.Pieces.{take-take, take_self, length-take, length-drop, take-add}
use openpreflight.Api.LogStream.{
  Look, Stream, Outcome, Turn, leaves, again, caught_up, hung_up, read_failed, send_data, send_turn,
  send, go_on,
}

-- What is in the file; one that is not there yet holds nothing.
abbrev pub text_of : Option Text → Text
text_of none = []
text_of (some file) = file

-- The log only grows from one turn to the next.
abbrev pub Grows : (ℕ → Look) → Type 0
Grows look = (k : ℕ) → (rest : Text) × (text_of (look (suc k)).file ≡ text_of (look k).file ++ rest)

abbrev pub payload : List Text → Text
payload [] = []
payload (chunk ∷ chunks) = chunk ++ payload chunks

-- The chunks so far, joined, are the log up to the offset, and within the cap.
pub record IsSent (max : ℤ) (file : Text) (s : Stream) : Type 0 where
  pub content : payload s.chunks ≡ take s.offset file
  pub count : s.sent ≡ s.offset
  pub within : s.offset ≤ length file
  pub capped : is_positive max ≡ true → s.sent ≤ pos_part max

-- A turn has passed on the chunk `kept` of the file.
record Advances (max : ℤ) (file : Text) (s t : Stream) (kept : Text) : Type 0 where
  chunks : t.chunks ≡ s.chunks ++ kept ∷ []
  sent : t.sent ≡ s.sent + length kept
  offset : t.offset ≡ s.offset + length kept
  some_more : 0 < length kept
  piece : kept ≡ take (length kept) (drop s.offset file)
  inside : s.offset + length kept ≤ length file
  capped : is_positive max ≡ true → s.sent + length kept ≤ pos_part max

payload-append : (xs : List Text) (kept : Text) → payload (xs ++ kept ∷ []) ≡ payload xs ++ kept
payload-append [] kept = append-nil kept
payload-append (x ∷ xs) kept =
    ap (λ r. x ++ r) (payload-append xs kept) ∙ sym (append_assoc x (payload xs) kept)

Advances-IsSent :
    (max : ℤ) (file : Text) (s t : Stream) (kept : Text)
    → Advances max file s t kept
    → IsSent max file s
    → IsSent max file t
Advances-IsSent max file s t kept a h = record {
  content =
      ap payload a.chunks
      ∙ (payload-append s.chunks kept
          ∙ (cc (h.content, a.piece)
              ∙ (sym (take-add s.offset (length kept) file)
                  ∙ ap (λ k. take k file) (sym a.offset))));
  count = omega (arith, a.sent, a.offset, h.count);
  within = omega (arith, a.offset, a.inside);
  capped = (λ p. omega (arith, a.sent, a.capped p));
}

pub grown-IsSent :
    (max : ℤ) (file rest : Text) (s : Stream) → IsSent max file s → IsSent max (file ++ rest) s
grown-IsSent max file rest s h = record {
  content = h.content ∙ sym (take-append_longer s.offset file rest h.within);
  count = h.count;
  within = omega (arith, h.within, length-append file rest);
  capped = h.capped;
}

-- Why the loop returns, in its last turn.
abbrev pub Ends : ℤ → Look → Stream → Outcome → Type 0
Ends max look s caught_up =
    ((is_positive max ≡ true) × (pos_part max ≤ s.sent)) ⊎ (s.offset ≡ length (text_of look.file))
Ends max look s hung_up = look.is_gone ≡ true
Ends max look s read_failed = look.is_failing ≡ true

-- A turn leaves the stream as it is and returns, or passes on a chunk.
data TurnOf (max : ℤ) (look : Look) (s : Stream) : Turn → Type 0 where
  stops : (o : Outcome) → Ends max look s o → TurnOf max look s (leaves o s)
  moves :
      (t : Stream) (kept : Text)
      → Advances max (text_of look.file) s t kept
      → TurnOf max look s (again t)

read_nothing :
    (n offset : ℕ) (rest : Text) → n ≡ 0 → ◌≡◌ {A = Text × ℕ} (take n rest, offset + n) ([], offset)
read_nothing zero offset rest h = ap (λ k. ([], k)) (omega arith)
read_nothing (suc n) offset rest h = absurd (omega arith)

read_from-piece :
    (file : Option Text) (offset : ℕ)
    → offset ≤ length (text_of file)
    → (n : ℕ) × (n ≤ length (text_of file) - offset)
      × ((n ≡ 0) → offset ≡ length (text_of file))
      × (read_from file (pos offset) ≡ (take n (drop offset (text_of file)), offset + n))
unfolding read_from
read_from-piece none zero h = (0, omega arith, (λ e. refl), refl)
read_from-piece none (suc offset) h = absurd (omega arith)
read_from-piece (some file) offset h = (
  min (length file - offset) read_from_chunk,
  omega arith,
  (λ e. omega arith),
  elim (Bool-cases (min (length file - offset) read_from_chunk == 0)) [
    | inl e ↦ ground (
      arith,
      e,
      read_nothing (min (length file - offset) read_from_chunk) offset (drop offset file)
          (omega (arith, (==_iff _ 0).0 e)),
    )
    | inr e ↦ ground (arith, e)
  ],
)

is_nil-false : (xs : Text) → 0 < length xs → is_nil xs ≡ false
is_nil-false [] h = absurd (omega arith)
is_nil-false (x ∷ xs) h = refl

-- What `send_data` does with a piece of the file.
send_data-TurnOf :
    (max : ℤ) (look : Look) (s : Stream) (n : ℕ)
    → s.offset ≤ length (text_of look.file)
    → (is_positive max && leb (pos_part max) s.sent) ≡ false
    → n ≤ length (text_of look.file) - s.offset
    → ((n ≡ 0) → s.offset ≡ length (text_of look.file))
    → TurnOf max look s
        (send_data max (take n (drop s.offset (text_of look.file))) (s.offset + n) s)
unfolding send_data
send_data-TurnOf max look s zero h open_ le last =
    let same : s.offset + 0 ≡ s.offset = omega arith in rw same (stops caught_up (inr (last refl)))
send_data-TurnOf max look s (suc n) h open_ le last =
    let file = text_of look.file in
    let bytes = take (suc n) (drop s.offset file) in
    let size : length bytes ≡ suc n =
      omega (arith, length-take (suc n) (drop s.offset file), length-drop s.offset file, le) in
    elim (Bool-cases (is_positive max && ltb (pos_part max) (s.sent + length bytes))) [
      | inl e ↦
          let kept = take (pos_part max - s.sent) bytes in
          let short : length kept ≡ pos_part max - s.sent =
            ground (arith, e, size, length-take (pos_part max - s.sent) bytes) in
          rw (is_nil-false bytes (omega (arith, size)), e)
            (moves _ kept (record {
              chunks = refl;
              sent = refl;
              offset = refl;
              some_more = ground (arith, e, open_, short);
              piece = take-take (pos_part max - s.sent) (suc n) (drop s.offset file);
              inside = omega (arith, le, h, size, short, length-take (pos_part max - s.sent) bytes);
              capped = (λ p. ground (arith, e, open_, short));
            }))
      | inr e ↦
          rw (is_nil-false bytes (omega (arith, size)), e)
            (moves _ bytes (record {
              chunks = refl;
              sent = refl;
              offset = omega (arith, size);
              some_more = omega (arith, size);
              piece = take_self (suc n) (drop s.offset file);
              inside = omega (arith, le, h, size);
              capped = (λ p. ground (arith, p, e));
            }))
    ]

send_turn-TurnOf :
    (max : ℤ) (look : Look) (s : Stream)
    → s.offset ≤ length (text_of look.file)
    → TurnOf max look s (send_turn max look s)
unfolding send_turn
send_turn-TurnOf max look s h =
    let (n, le, last, read) = read_from-piece look.file s.offset h in
    elim (Bool-cases look.is_gone) [
      | inl e ↦ simp e (stops hung_up e)
      | inr e ↦ elim (Bool-cases (is_positive max && leb (pos_part max) s.sent)) [
        | inl f ↦ simp (e, f) (stops caught_up (inl (ground (arith, f))))
        | inr f ↦ elim (Bool-cases look.is_failing) [
          | inl g ↦ simp (e, f, g) (stops read_failed g)
          | inr g ↦ simp (e, f, g, read) (send_data-TurnOf max look s n h f le last)
        ]
      ]
    ]

-- The loop has returned: after its last turn the chunks it has sent are, joined, the log up to the
-- offset.
abbrev pub Returns : ℤ → (ℕ → Look) → Option (Outcome × Stream) → Type 0
Returns max look r =
    (o : Outcome) × (t : Stream) × (k : ℕ) × (r ≡ some (o, t))
    × IsSent max (text_of (look k).file) t
    × Ends max (look k) t o

turn-Returns :
    (max : ℤ) (look : ℕ → Look) (s : Stream) (rest : Stream → Option (Outcome × Stream))
    → Grows look
    → IsSent max (text_of (look 0).file) s
    → ((t : Stream)
        → IsSent max (text_of (look 1).file) t
        → s.offset < t.offset
        → Returns max (λ k. look (suc k)) (rest t))
    → (turn : Turn) → TurnOf max (look 0) s turn
    → Returns max look (go_on rest turn)
turn-Returns max look s rest grows h later _ (stops o e) = (o, s, 0, refl, h, e)
turn-Returns max look s rest grows h later _ (moves t kept a) =
    let (more, longer) = grows 0 in
    let (o, t', k, same, sent, end) =
      later t
        (rw longer (
          grown-IsSent max (text_of (look 0).file) more t
            (Advances-IsSent max (text_of (look 0).file) s t kept a h)))
        (omega (arith, a.offset, a.some_more)) in
    (o, t', suc k, same, sent, end)

-- While the log only grows, to at most `bound` bytes, the loop returns within `turns` turns if these
-- are more than the bytes from the offset to the bound. The chunks sent are then, joined, the log up
-- to the offset, within a cap that is positive. An end without an error is at the cap or at the end of
-- the log; the other ends are a context that is done and a read that failed.
pub send-Returns :
    (turns bound : ℕ) (max : ℤ) (look : ℕ → Look) (s : Stream)
    → Grows look
    → ((k : ℕ) → length (text_of (look k).file) ≤ bound)
    → IsSent max (text_of (look 0).file) s
    → bound < s.offset + turns
    → Returns max look (send turns max look s)
unfolding send
send-Returns zero bound max look s grows small h enough = absurd (omega (arith, h.within, small 0))
send-Returns (suc turns) bound max look s grows small h enough =
    turn-Returns max look s (send turns max (λ k. look (suc k))) grows h
      (λ t h' further.
        send-Returns turns bound max (λ k. look (suc k)) t (λ k. grows (suc k)) (λ k. small (suc k))
          h' (omega (arith, further, enough)))
      (send_turn max (look 0) s) (send_turn-TurnOf max (look 0) s h.within)
