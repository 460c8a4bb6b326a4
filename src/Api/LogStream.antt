-- ===== src/Api/LogStream.antt =====
-- internal/api/logs_stream.go: the loop that sends what is new in a job's log, and the events it is
-- sent as. Writes to the response do not fail. The heartbeat is a line that a browser skips.
pub mod Pieces
pub mod Sending
pub mod Serving
pub mod Characters
pub mod Events
use openpreflight.Prelude.{
  ℕ, zero, suc, ◌+◌, ◌-◌, ◌≡◌, refl, Bool, true, false, ◌&&◌, List, [], ◌∷◌, ◌++◌, Option, none,
  some, ◌>>=◌, ℤ, pos, is_positive, pos_part, ltb, leb, if◌then◌else◌, is_nil, length, take,
}
use openpreflight.Go.Strings.{Text, codes, split}
use openpreflight.Logs.Reader.{read_from}

-- What a turn of the loop meets: whether the request's context is done, whether `ReadFrom` fails, and
-- the log's file, which the job's writer appends to meanwhile.
pub record Look : Type 0 where
  pub is_gone : Bool
  pub is_failing : Bool
  pub file : Option Text

-- The variables of the handler, and the chunks that were written to the response.
pub record Stream : Type 0 where
  pub offset : ℕ
  pub sent : ℕ
  pub chunks : List Text

-- What `send` returns: no error, the context's, or that of `ReadFrom`.
pub data Outcome : Type 0 where
  caught_up : Outcome
  hung_up : Outcome
  read_failed : Outcome

-- A turn of the loop returns or goes on.
pub data Turn : Type 0 where
  leaves : Outcome → Stream → Turn
  again : Stream → Turn

-- The turn with the bytes that was read, and the offset behind it.
unfoldable pub send_data : ℤ → Text → ℕ → Stream → Turn
send_data max bytes next s =
    let cut = is_positive max && ltb (pos_part max) (s.sent + length bytes) in
    let kept = if cut then take (pos_part max - s.sent) bytes else bytes in
    if is_nil bytes
    then leaves caught_up (record s { offset = next })
    else again (record {
      offset = (if cut then s.offset + length kept else next);
      sent = s.sent + length kept;
      chunks = s.chunks ++ kept ∷ [];
    })

unfoldable pub send_turn : ℤ → Look → Stream → Turn
send_turn max look s =
    let r = read_from look.file (pos s.offset) in
    if look.is_gone
    then leaves hung_up s
    else if is_positive max && leb (pos_part max) s.sent
    then leaves caught_up s
    else if look.is_failing
    then leaves read_failed s
    else send_data max r.0 r.1 s

-- What the loop does behind a turn.
abbrev pub go_on : (Stream → Option (Outcome × Stream)) → Turn → Option (Outcome × Stream)
go_on rest (leaves o s) = some (o, s)
go_on rest (again s) = rest s

-- `send`, on fuel; the argument of `look` counts the turns.
unfoldable pub send : ℕ → ℤ → (ℕ → Look) → Stream → Option (Outcome × Stream)
send zero max look s = none
send (suc turns) max look s = go_on (send turns max (λ k. look (suc k))) (send_turn max (look 0) s)

-- What the handler waits for: the request's context is done, a heartbeat, or the poll, with whether
-- the job that the store has is in flight (`none` if it cannot be read) and what `send` meets then.
pub data Tick : Type 0 where
  hangs_up : Tick
  heartbeat : Tick
  polls : Option Bool → (ℕ → Look) → Tick

-- How the handler leaves: it still waits, it returns without a word, or it writes the event that the
-- log is finished, because the job has ended or cannot be read.
pub data Served : Type 0 where
  waits : Served
  drops : Served
  finishes : Served
  loses_job : Served

-- Behind a call of `send`, with whether the job is in flight.
abbrev pub on_sent :
    Bool → (Stream → Option (Served × Stream)) → Outcome × Stream → Option (Served × Stream)
on_sent in_flight rest (caught_up, s) = if in_flight then rest s else some (finishes, s)
on_sent in_flight rest (hung_up, s) = some (drops, s)
on_sent in_flight rest (read_failed, s) = some (drops, s)

-- The last loop of `streamJobLogs`; each `send` has fuel for `turns` turns.
unfoldable pub poll_loop : ℕ → ℤ → List Tick → Stream → Option (Served × Stream)
poll_loop turns max [] s = some (waits, s)
poll_loop turns max (hangs_up ∷ ticks) s = some (drops, s)
poll_loop turns max (heartbeat ∷ ticks) s = poll_loop turns max ticks s
poll_loop turns max (polls none look ∷ ticks) s = some (loses_job, s)
poll_loop turns max (polls (some in_flight) look ∷ ticks) s =
    send turns max look s >>= on_sent in_flight (poll_loop turns max ticks)

-- `streamJobLogs` behind its checks, for a job that was or was not in flight then.
unfoldable pub stream_job_logs : ℕ → ℤ → Bool → (ℕ → Look) → List Tick → Option (Served × Stream)
stream_job_logs turns max in_flight look ticks =
    send turns max look (record { offset = 0; sent = 0; chunks = [] })
    >>= on_sent in_flight (poll_loop turns max ticks)

abbrev pub data_lines : List Text → Text
data_lines [] = []
data_lines (line ∷ lines) = codes "data: " ++ (line ++ 0x0a ∷ data_lines lines)

-- `writeSSEData`.
unfoldable pub write_sse_data : Text → Text
unfolding split
write_sse_data chunk = data_lines (split 0x0a chunk) ++ 0x0a ∷ []
