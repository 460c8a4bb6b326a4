-- ===== src/Api/LogStream/Serving.antt =====
-- The handler `streamJobLogs` of internal/api/logs_stream.go answers with the log.
use openpreflight.Prelude.{
  ℕ, ◌≤◌, ◌<◌, ◌≡◌, refl, ◌⊎◌, inl, inr, Bool, true, false, List, [], ◌∷◌, ◌++◌, Option, none, some,
  ◌>>=◌, ℤ, is_positive, pos_part, length, arith,
}
use openpreflight.Go.Strings.{Text}
use openpreflight.Api.LogStream.{
  Look, Stream, Outcome, caught_up, hung_up, read_failed, send, Tick, hangs_up, heartbeat, polls,
  Served, waits, drops, finishes, loses_job, on_sent, poll_loop, stream_job_logs,
}
use openpreflight.Api.LogStream.Sending.{
  text_of, Grows, IsSent, Ends, Returns, grown-IsSent, send-Returns,
}

-- The log only grows from one poll to the next too, and not beyond `bound` bytes.
abbrev pub IsLogging : ℕ → (ℕ → Look) → List Tick → Type 0
IsLogging bound look [] = Grows look × ((k : ℕ) → length (text_of (look k).file) ≤ bound)
IsLogging bound look (polls in_flight later ∷ ticks) =
    Grows look
    × ((k : ℕ) → length (text_of (look k).file) ≤ bound)
    × ((k : ℕ) → (rest : Text) × (text_of (later 0).file ≡ text_of (look k).file ++ rest))
    × IsLogging bound later ticks
IsLogging bound look (tick ∷ ticks) = IsLogging bound look ticks

-- All of the log was sent, or as much of it as the cap allows, if the handler says that it finished.
abbrev pub IsComplete : ℤ → Text → Stream → Served → Type 0
IsComplete max file s finishes =
    ((is_positive max ≡ true) × (s.sent ≡ pos_part max)) ⊎ (s.offset ≡ length file)
IsComplete max file s served = Unit

-- What the log holds at one of the turns.
pub data ShownBy : (ℕ → Look) → List Tick → Text → Type 0 where
  now : {look : ℕ → Look} {ticks : List Tick} (k : ℕ) → ShownBy look ticks (text_of (look k).file)
  at_heartbeat :
      {look : ℕ → Look} {ticks : List Tick} {file : Text}
      → ShownBy look ticks file
      → ShownBy look (heartbeat ∷ ticks) file
  at_poll :
      {look later : ℕ → Look} {ticks : List Tick} {file : Text} (in_flight : Option Bool)
      → ShownBy later ticks file
      → ShownBy look (polls in_flight later ∷ ticks) file

-- The handler's answer: the chunks are, joined, the beginning of what the log holds at some turn.
abbrev pub Answers : ℤ → (ℕ → Look) → List Tick → Option (Served × Stream) → Type 0
Answers max look ticks r =
    (v : Served) × (t : Stream) × (file : Text) × (r ≡ some (v, t))
    × ShownBy look ticks file
    × IsSent max file t
    × IsComplete max file t v

IsLogging-Grows :
    (bound : ℕ) (look : ℕ → Look) (ticks : List Tick)
    → IsLogging bound look ticks
    → Grows look × ((k : ℕ) → length (text_of (look k).file) ≤ bound)
IsLogging-Grows bound look [] l = l
IsLogging-Grows bound look (hangs_up ∷ ticks) l = IsLogging-Grows bound look ticks l
IsLogging-Grows bound look (heartbeat ∷ ticks) l = IsLogging-Grows bound look ticks l
IsLogging-Grows bound look (polls in_flight later ∷ ticks) (grows, small, more, l) = (grows, small)

on_sent-Answers :
    (max : ℤ) (look : ℕ → Look) (ticks : List Tick) (in_flight : Bool)
    → (rest : Stream → Option (Served × Stream)) (k : ℕ) (t : Stream)
    → IsSent max (text_of (look k).file) t
    → Answers max look ticks (rest t)
    → (o : Outcome) → Ends max (look k) t o
    → Answers max look ticks (on_sent in_flight rest (o, t))
on_sent-Answers max look ticks true rest k t h later caught_up end = later
on_sent-Answers max look ticks false rest k t h later caught_up (inl (p, le)) =
    (finishes, t, _, refl, now k, h, inl (p, omega (arith, le, h.capped p)))
on_sent-Answers max look ticks false rest k t h later caught_up (inr all) =
    (finishes, t, _, refl, now k, h, inr all)
on_sent-Answers max look ticks in_flight rest k t h later hung_up end =
    (drops, t, _, refl, now k, h, tt)
on_sent-Answers max look ticks in_flight rest k t h later read_failed end =
    (drops, t, _, refl, now k, h, tt)

sent-Answers :
    (max : ℤ) (look : ℕ → Look) (ticks : List Tick) (in_flight : Bool)
    → (rest : Stream → Option (Served × Stream))
    → ((k : ℕ) (t : Stream)
        → IsSent max (text_of (look k).file) t
        → Answers max look ticks (rest t))
    → (r : Option (Outcome × Stream)) → Returns max look r
    → Answers max look ticks (r >>= on_sent in_flight rest)
sent-Answers max look ticks in_flight rest later r (o, t, k, same, h, end) =
    rw same (on_sent-Answers max look ticks in_flight rest k t h (later k t h) o end)

module _ (turns bound : ℕ) (max : ℤ) (enough : bound < turns) where
  poll_loop-Answers :
      (ticks : List Tick) (look : ℕ → Look) (k : ℕ) (s : Stream)
      → IsLogging bound look ticks
      → IsSent max (text_of (look k).file) s
      → Answers max look ticks (poll_loop turns max ticks s)
  unfolding poll_loop
  poll_loop-Answers [] look k s l h = (waits, s, _, refl, now k, h, tt)
  poll_loop-Answers (hangs_up ∷ ticks) look k s l h = (drops, s, _, refl, now k, h, tt)
  poll_loop-Answers (heartbeat ∷ ticks) look k s l h =
      let (v, t, file, same, shown, sent, complete) = poll_loop-Answers ticks look k s l h in
      (v, t, file, same, at_heartbeat shown, sent, complete)
  poll_loop-Answers (polls none later ∷ ticks) look k s l h = (loses_job, s, _, refl, now k, h, tt)
  poll_loop-Answers (polls (some b) later ∷ ticks) look k s (grows, small, more, l) h =
      let (rest, longer) = more k in
      let (grows', small') = IsLogging-Grows bound later ticks l in
      let (v, t, file, same, shown, sent, complete) =
        sent-Answers max later ticks b (poll_loop turns max ticks)
          (λ k' t h'. poll_loop-Answers ticks later k' t l h') (send turns max later s)
          (send-Returns turns bound max later s grows' small'
            (rw longer (grown-IsSent max (text_of (look k).file) rest s h))
            (omega (arith, enough))) in
      (v, t, file, same, at_poll (some b) shown, sent, complete)

-- While the log only grows, to at most `bound` bytes, and `send` may take more turns than that, the
-- handler answers: the chunks it writes are, joined, the beginning of what the log holds at some
-- turn, within a cap that is positive. If it writes that the log is finished because the job has
-- ended, they are all of that log, or as much as the cap allows.
pub stream_job_logs-Answers :
    (turns bound : ℕ) (max : ℤ) (in_flight : Bool) (look : ℕ → Look) (ticks : List Tick)
    → bound < turns
    → IsLogging bound look ticks
    → Answers max look ticks (stream_job_logs turns max in_flight look ticks)
unfolding stream_job_logs
stream_job_logs-Answers turns bound max in_flight look ticks enough l =
    let (grows, small) = IsLogging-Grows bound look ticks l in
    sent-Answers max look ticks in_flight (poll_loop turns max ticks)
      (λ k t h. poll_loop-Answers turns bound max enough ticks look k t l h)
      (send turns max look (record { offset = 0; sent = 0; chunks = [] }))
      (send-Returns turns bound max look (record { offset = 0; sent = 0; chunks = [] }) grows small
        (record { content = refl; count = refl; within = omega arith; capped = (λ p. omega arith) })
        (omega (arith, enough)))
