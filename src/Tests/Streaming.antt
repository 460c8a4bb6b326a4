-- ===== src/Tests/Streaming.antt =====
-- The log stream of internal/api/logs_stream.go.
use openpreflight.Prelude.{
  ℕ, zero, suc, ◌+◌, ◌-◌, ◌*◌, ◌/◌, ◌%◌, ◌≤◌, ◌≡◌, Bool, ap, ◌∙◌, map, All, ltb, if◌then◌else◌,
  refl, true, false, [], ◌∷◌, ◌++◌, append-nil, sym, none, some, pos, arith, length,
}
use openpreflight.Go.Strings.{Text, codes}
use openpreflight.Api.LogStream.{
  Look, Stream, send, caught_up, heartbeat, polls, finishes, stream_job_logs, write_sse_data,
}
use openpreflight.Api.LogStream.Sending.{Grows, text_of}
use openpreflight.Api.LogStream.Serving.{Answers, stream_job_logs-Answers}
use openpreflight.Api.LogStream.Events.{events, messages}
use openpreflight.Api.LogStream.Characters.{encode, IsUtf8, messages-decode}

-- A log that stays as it is.
abbrev holding : Text → ℕ → Look
holding s k = record { is_gone = false; is_failing = false; file = some s }

-- One that gets its file behind the first turn.
abbrev opening : Text → ℕ → Look
opening s zero = record { is_gone = false; is_failing = false; file = none }
opening s (suc k) = holding s k

opening-Grows : (s : Text) → Grows (opening s)
opening-Grows s zero = (s, refl)
opening-Grows s (suc k) = ([], sym (append-nil s))

opening-short : (k : ℕ) → length (text_of (opening (codes "ab\nc") k).file) ≤ 4
opening-short zero = omega arith
opening-short (suc k) = omega arith

abbrev start : Stream
start = record { offset = 0; sent = 0; chunks = [] }

send_test :
    send 5 (pos 3) (holding (codes "ab\nc")) start
    ≡ some (caught_up, record { offset = 3; sent = 3; chunks = codes "ab\n" ∷ [] })
unfolding send openpreflight.Api.LogStream.send_turn openpreflight.Api.LogStream.send_data
    openpreflight.Logs.Reader.read_from
send_test = refl

stream_job_logs-Answers_example :
    Answers
      (pos 0)
      (opening (codes "ab\nc"))
      (heartbeat ∷ polls (some false) (holding (codes "ab\nc")) ∷ [])
      (stream_job_logs 5
        (pos 0)
        true
        (opening (codes "ab\nc"))
        (heartbeat ∷ polls (some false) (holding (codes "ab\nc")) ∷ []))
stream_job_logs-Answers_example =
    stream_job_logs-Answers 5 4 (pos 0) true (opening (codes "ab\nc"))
      (heartbeat ∷ polls (some false) (holding (codes "ab\nc")) ∷ []) (omega arith)
      (
        opening-Grows (codes "ab\nc"),
        opening-short,
        grown,
        ((λ k. ([], sym (append-nil (codes "ab\nc")))), (λ k. omega arith)),
      )
  where
    grown :
        (k : ℕ) → (rest : Text) × (codes "ab\nc" ≡ text_of (opening (codes "ab\nc") k).file ++ rest)
    grown zero = (codes "ab\nc", refl)
    grown (suc k) = ([], sym (append-nil (codes "ab\nc")))

stream_test :
    stream_job_logs 5
      (pos 0)
      true
      (opening (codes "ab\nc"))
      (heartbeat ∷ polls (some false) (holding (codes "ab\nc")) ∷ [])
    ≡ some (finishes, record { offset = 4; sent = 4; chunks = codes "ab\nc" ∷ [] })
unfolding stream_job_logs openpreflight.Api.LogStream.poll_loop send
    openpreflight.Api.LogStream.send_turn openpreflight.Api.LogStream.send_data
    openpreflight.Logs.Reader.read_from
stream_test = refl

-- UTF-8 as far as its two-byte form goes.
abbrev two_bytes : ℕ → Text
two_bytes c = if ltb c 128 then c ∷ [] else (192 + c / 64) ∷ (128 + c % 64) ∷ []

two_bytes-IsUtf8 : IsUtf8 two_bytes
two_bytes-IsUtf8 = record {
  ascii = λ c h. ground (arith, h);
  high = λ c h. two_high c (ltb c 128) (ground (arith, h));
}
  where
    two_high :
        (c : ℕ) (b : Bool)
        → b ≡ false
        → All (λ d. 128 ≤ d) (if b then c ∷ [] else (192 + c / 64) ∷ (128 + c % 64) ∷ [])
    two_high c true h = cc
    two_high c false h = (omega arith, (omega arith, tt))

from_two_bytes : Text → Text
from_two_bytes [] = []
from_two_bytes (b ∷ []) = b ∷ []
from_two_bytes (b ∷ d ∷ s) =
    let single = from_two_bytes (d ∷ s) in
    let pair = from_two_bytes s in
    if ltb b 128 then b ∷ single else ((b - 192) * 64 + (d - 128)) ∷ pair

from_single : (c : ℕ) (s : Text) → ltb c 128 ≡ true → from_two_bytes (c ∷ s) ≡ c ∷ from_two_bytes s
unfolding from_two_bytes
from_single c [] h = refl
from_single c (d ∷ s) h = rw h refl

from_pair :
    (b d : ℕ) (s : Text)
    → ltb b 128 ≡ false
    → from_two_bytes (b ∷ d ∷ s) ≡ ((b - 192) * 64 + (d - 128)) ∷ from_two_bytes s
unfolding from_two_bytes
from_pair b d s h = rw h refl

decoded : (s : Text) → from_two_bytes (encode two_bytes s) ≡ s
decoded [] = unfold from_two_bytes in refl
decoded (c ∷ s) = go (ltb c 128) refl (decoded s)
  where
    go :
        (b : Bool)
        → ltb c 128 ≡ b
        → from_two_bytes (encode two_bytes s) ≡ s
        → from_two_bytes
            ((if b then c ∷ [] else (192 + c / 64) ∷ (128 + c % 64) ∷ []) ++ encode two_bytes s)
          ≡ c ∷ s
    go true e h = from_single c (encode two_bytes s) e ∙ ap (λ r. c ∷ r) h
    go false e h =
        let same : (192 + c / 64 - 192) * 64 + (128 + c % 64 - 128) ≡ c = omega arith in
        from_pair (192 + c / 64) (128 + c % 64) (encode two_bytes s) (ground arith)
        ∙ (ap (λ d. d ∷ from_two_bytes (encode two_bytes s)) same ∙ ap (λ r. c ∷ r) h)

messages-decode_example :
    messages
      (from_two_bytes (events (map (encode two_bytes) ((0xe9 ∷ codes "b\nc") ∷ codes "\n" ∷ []))))
    ≡ (0xe9 ∷ codes "b\nc") ∷ codes "\n" ∷ []
messages-decode_example =
    messages-decode two_bytes from_two_bytes ((0xe9 ∷ codes "b\nc") ∷ codes "\n" ∷ [])
      two_bytes-IsUtf8 decoded (refl, (refl, tt))

-- What stands behind a carriage return is no data for the browser.
carriage_return_test :
    messages (write_sse_data (codes "10%" ++ 0x0d ∷ codes "20%")) ≡ codes "10%" ∷ []
unfolding write_sse_data openpreflight.Api.LogStream.Events.event_lines
    openpreflight.Api.LogStream.Events.dispatched openpreflight.Api.LogStream.Events.add_field
    openpreflight.Go.Strings.split openpreflight.Go.Strings.join openpreflight.Go.Strings.has_prefix
    openpreflight.Go.Strings.str_eq
carriage_return_test = refl
