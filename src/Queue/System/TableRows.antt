-- ===== src/Queue/System/TableRows.antt =====
-- What the rows of the worker's table satisfy, and how each statement keeps it.
use openpreflight.Prelude.{
  ℕ, ◌≤◌, ◌≡◌, refl, sym, ap, ◌∙◌, Bool, true, false, Bool-cases, inl, inr, List, [], ◌∷◌, ◌++◌,
  Option, none, some, if◌then◌else◌, filter, any, arith, All, All-append, length, ◌||◌, not,
}
use openpreflight.Go.Strings.{Text, str_eq, str_eq_iff}
use openpreflight.Store.Models.{Job, in_flight, in_flight_status, is_in_progress, is_queued}
use openpreflight.Store.Jobs.{
  JobInput, Outcome, has_id, update_job, finish_job, finished, new_job, started, requeued,
  claim_next_job,
}
use openpreflight.Store.Jobs.Rows.{UniqueIds, update_job-UniqueIds}
use openpreflight.Store.Jobs.Claim.{claim_next_job-row}
use openpreflight.Queue.Runner.{member, superseded}
use openpreflight.Queue.System.{KeepsStatus}
use openpreflight.Queue.System.Rows.{All-update_job, All-In, All-mono, UniqueIds-append}

-- A job with a goroutine, or between its claim and its start.
abbrev pub owned : Option Job → List Text → Text → Bool
owned none running id = member id running
owned (some j) running id = str_eq j.id id || member id running

abbrev pub waiting : Option Job → ℕ
waiting none = 0
waiting (some j) = 1

-- A row in progress is owned; the row of a goroutine that wrote its end is not in flight.
abbrev pub Row : Option Job → List Text → List Text → Job → Type 0
Row claimed running ended j =
    (is_in_progress j ≡ true → owned claimed running j.id ≡ true)
    × (member j.id ended ≡ true → in_flight j ≡ false)

abbrev pub Table : Option Job → List Text → List Job → List Text → Type 0
Table claimed ended js running = UniqueIds js × All (Row claimed running ended) js

finished_row :
    (claimed : Option Job) (running ended : List Text) (now : Text) (o : Outcome) (j : Job)
    → in_flight_status o.status ≡ false
    → Row claimed running ended (finished now o j)
unfolding in_flight_status
finished_row claimed running ended now o j h = ((λ e. absurd (ground arith)), (λ e. h))

new_row :
    (claimed : Option Job) (running ended : List Text) (id now : Text) (inp : JobInput)
    → member id ended ≡ false
    → Row claimed running ended (new_job id now inp)
new_row claimed running ended id now inp h = ((λ e. cc), (λ e. cc))

finish_job-Table :
    (claimed : Option Job) (ended : List Text) (now id : Text) (o : Outcome) (js : List Job)
    (running : List Text)
    → in_flight_status o.status ≡ false
    → Table claimed ended js running
    → Table claimed ended (finish_job now id o js) running
unfolding finish_job
finish_job-Table claimed ended now id o js running t (u, h) = (
  update_job-UniqueIds id (finished now o) (λ j. refl) js u,
  All-update_job (Row claimed running ended) id (finished now o) js
      (λ j e q. finished_row claimed running ended now o j t) h,
)

pub superseded-Table :
    (claimed : Option Job) (ended : List Text) (now id : Text) (js : List Job) (running : List Text)
    → Table claimed ended js running
    → Table claimed ended (finish_job now id superseded js) running
unfolding in_flight_status
superseded-Table claimed ended now id js running h =
    finish_job-Table claimed ended now id superseded js running refl h

pub new_job-Table :
    (claimed : Option Job) (ended : List Text) (id now : Text) (inp : JobInput)
    → member id ended ≡ false
    → (js : List Job) (running : List Text) → any (has_id id) js ≡ false
    → Table claimed ended js running
    → Table claimed ended (js ++ new_job id now inp ∷ []) running
new_job-Table claimed ended id now inp fresh js running d (u, h) = (
  UniqueIds-append js (new_job id now inp) d u,
  All-append (Row claimed running ended) js _ h
      (new_row claimed running ended id now inp fresh, tt),
)

-- The claimed row goes into progress, and it is the claimed job's.
started_row :
    (running ended : List Text) (now : Text) (taken k j : Job)
    → taken.id ≡ k.id
    → (member k.id ended ≡ true → in_flight k ≡ false)
    → is_queued k ≡ true
    → has_id k.id j ≡ true
    → Row (some taken) running ended (started now j)
unfolding in_flight_status
started_row running ended now taken k j same c q e = (
  (λ p. ground (arith, str_eq_iff taken.id j.id, str_eq_iff j.id k.id)),
  (λ p.
      let alike : j.id ≡ k.id = (str_eq_iff j.id k.id).0 e in
      absurd (ground (arith, c (ap (λ x. member x ended) (sym alike) ∙ p)))),
)

claimed_row :
    (taken j : Job) (running ended : List Text)
    → Row none running ended j
    → Row (some taken) running ended j
claimed_row taken j running ended (p, c) = ((λ e. ground (arith, p e)), c)

pub claim-Table :
    (ended running : List Text) (now : Text) (taken : Job) (js rows : List Job)
    → claim_next_job now js ≡ some (taken, rows)
    → Table none ended js running
    → Table (some taken) ended rows running
claim-Table ended running now taken js rows e (u, h) =
    let (k, there, queued, same, written) = claim_next_job-row now js taken rows e in
    let (owned_k, ended_k) = All-In (Row none running ended) k js h there in
    rw written (
      update_job-UniqueIds k.id (started now) (λ j. refl) js u,
      All-update_job (Row (some taken) running ended) k.id (started now) js
          (λ j m q. started_row running ended now taken k j same ended_k queued m)
          (All-mono (Row none running ended) (Row (some taken) running ended) js
            (λ j q. claimed_row taken j running ended q) h),
    )

pub start-Table :
    (ended running : List Text) (j : Job) (js : List Job)
    → Table (some j) ended js running
    → Table none ended js (if member j.id running then running else j.id ∷ running)
start-Table ended running j js (u, h) = (
  u,
  All-mono (Row (some j) running ended)
      (Row none (if member j.id running then running else j.id ∷ running) ended) js
      (λ k q. elim (Bool-cases (member j.id running)) [
        | inl m ↦
            rw m
              ((λ e. ground (arith, q.0 e, str_eq_iff j.id k.id, ap (λ x. member x running))), q.1)
        | inr m ↦ rw m ((λ e. ground (arith, q.0 e)), q.1)
      ])
      h,
)

member-filter :
    (x id : Text) (ids : List Text)
    → str_eq x id ≡ false
    → member x ids ≡ true
    → member x (filter (λ i. not (str_eq i id)) ids) ≡ true
member-filter x id [] h m = cc
member-filter x id (i ∷ ids) h m =
    ground (arith, member-filter x id ids h, str_eq_iff i x, str_eq_iff i id, str_eq_iff x id)

in_progress-in_flight : (j : Job) → is_in_progress j ≡ true → in_flight j ≡ true
unfolding in_flight_status
in_progress-in_flight j h = ground arith

pub left_row :
    (claimed : Option Job) (running ended : List Text) (id : Text) (j : Job)
    → member id ended ≡ true
    → Row claimed running ended j
    → Row claimed (filter (λ i. not (str_eq i id)) running) ended j
left_row claimed running ended id j m (p, c) = ((λ e. still claimed p e), c)
  where
    other : is_in_progress j ≡ true → str_eq j.id id ≡ false
    other e = elim (Bool-cases (str_eq j.id id)) [
      | inl q ↦
          let alike : j.id ≡ id = (str_eq_iff j.id id).0 q in
          cc (c (ap (λ x. member x ended) alike ∙ m), in_progress-in_flight j e)
      | inr q ↦ q
    ]

    still :
        (o : Option Job)
        → (is_in_progress j ≡ true → owned o running j.id ≡ true)
        → is_in_progress j ≡ true
        → owned o (filter (λ i. not (str_eq i id)) running) j.id ≡ true
    still none p e = member-filter j.id id running (other e) (p e)
    still (some k) p e = elim (Bool-cases (str_eq k.id j.id)) [
      | inl q ↦ rw q refl
      | inr q ↦ rw q (member-filter j.id id running (other e) (rw q at (p e)))
    ]

pub filter-length : (p : Text → Bool) (xs : List Text) → length (filter p xs) ≤ length xs
filter-length p [] = omega arith
filter-length p (x ∷ xs) = ground (arith, filter-length p xs)

pub requeued_row : (j : Job) → Row none [] [] (requeued j)
requeued_row j = elim (Bool-cases (is_in_progress j)) [
  | inl e ↦ rw e ((λ p. cc), (λ p. cc))
  | inr e ↦ rw e ((λ p. cc (e, p)), (λ p. cc))
]

concluded_row :
    (claimed : Option Job) (running ended : List Text) (id now : Text) (o : Outcome) (j : Job)
    (matches : Bool)
    → in_flight_status o.status ≡ false
    → has_id id j ≡ matches
    → Row claimed running ended j
    → Row claimed running (id ∷ ended) (if matches then finished now o j else j)
concluded_row claimed running ended id now o j true t e h =
    finished_row claimed running (id ∷ ended) now o j t
concluded_row claimed running ended id now o j false t e (p, c) =
    (p, (λ m. c (ground (arith, e, m, str_eq_iff id j.id, str_eq_iff j.id id))))

pub concluded_rows :
    (claimed : Option Job) (running ended : List Text) (id now : Text) (o : Outcome) (js : List Job)
    → in_flight_status o.status ≡ false
    → All (Row claimed running ended) js
    → All (Row claimed running (id ∷ ended)) (update_job id (finished now o) js)
unfolding update_job
concluded_rows claimed running ended id now o [] t h = tt
concluded_rows claimed running ended id now o (j ∷ js) t (h, hs) = (
  concluded_row claimed running ended id now o j (has_id id j) t refl h,
  concluded_rows claimed running ended id now o js t hs,
)

pub noted_row :
    (claimed : Option Job) (running ended : List Text) (f : Job → Job) (j : Job)
    → KeepsStatus f
    → Row claimed running ended j
    → Row claimed running ended (f j)
noted_row claimed running ended f j keeps h = rw ((keeps j).0, (keeps j).1) h
