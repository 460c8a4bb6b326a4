-- ===== src/Api/Webhook/Admission.antt =====
-- One live run per commit.

use openpreflight.Prelude.{
  ℕ, suc, ◌+◌, ◌≤◌, ◌≡◌, ◌≢◌, refl, sym, ◌∙◌, ap, Bool, true, false, Bool-cases, inl, inr, not,
  ◌&&◌, ◌||◌, List, [], ◌∷◌, ◌++◌, Option, none, some, some-injective, arith, if◌then◌else◌, count,
  filter, length, length-filter, any, is_nil,
}
use openpreflight.Go.Strings.{Text, str_eq, str_eq_refl}
use openpreflight.Store.Models.{Job, in_flight, in_flight_status}
use openpreflight.Store.Jobs.{
  JobInput, enqueue_job, new_job, has_id, for_suite, newest, update_job, finished, finish_job, job,
  in_flight_job_for_suite, in_flight_job_for_delivery, text_ltb,
}
use openpreflight.Store.Jobs.Rows.{UniqueIds, In, In-filter, job_of_In}
use openpreflight.Store.Jobs.Backlog.{count-update_job}
use openpreflight.Queue.Runner.{Runner, member, superseded, cancel_queued, cancel_job}
use openpreflight.Webhook.Payload.{requested}
use openpreflight.Api.Webhook.{
  cancel_all, cancel_superseded, stored, enqueue, after_suite, after_delivery, admit,
}

-- The jobs of a commit that are in flight and were not told to stop.
abbrev pub is_live : ℕ → Text → Text → List Text → Job → Bool
is_live app_id repo sha signalled j = for_suite app_id repo sha j && not (member j.id signalled)

unfoldable pub live : ℕ → Text → Text → Runner → ℕ
live app_id repo sha r = count (is_live app_id repo sha r.signalled) r.tables.jobs

count_mono :
    (p q : Job → Bool) (js : List Job)
    → ((j : Job) → p j ≡ true → q j ≡ true)
    → count p js ≤ count q js
count_mono p q [] h = omega arith
count_mono p q (j ∷ js) h = ground (arith, h j, count_mono p q js h)

count-append : (p : Job → Bool) (xs ys : List Job) → count p (xs ++ ys) ≡ count p xs + count p ys
count-append p [] ys = omega arith
count-append p (x ∷ xs) ys = ground (arith, count-append p xs ys)

count-update_le :
    (p : Job → Bool) (id : Text) (f : Job → Job) (js : List Job)
    → ((j : Job) → p (f j) ≡ false)
    → count p (update_job id f js) ≤ count p js
unfolding update_job
count-update_le p id f [] h = omega arith
count-update_le p id f (j ∷ js) h = elim (Bool-cases (has_id id j)) [
  | inl e ↦ rw e (ground (arith, h j, count-update_le p id f js h))
  | inr e ↦ rw e (ground (arith, count-update_le p id f js h))
]

count_of_In : (p : Job → Bool) (k : Job) (js : List Job) → In k js → p k ≡ true → 1 ≤ count p js
count_of_In p k [] m h = absurd m
count_of_In p k (j ∷ js) (inl e) h = ground (arith, ap p e, h)
count_of_In p k (j ∷ js) (inr m) h = ground (arith, count_of_In p k js m h)

-- The only row with a property: no other id has it.
count_other :
    (p : Job → Bool) (k : Job) (js : List Job)
    → In k js
    → p k ≡ true
    → count p js ≤ 1
    → count (λ j. p j && not (str_eq k.id j.id)) js ≡ 0
count_other p k [] m h le = absurd m
count_other p k (j ∷ js) (inl e) h le =
    let none_else =
      count_mono (λ i. p i && not (str_eq k.id i.id)) p js (λ i q. ground (arith, q)) in
    ground (arith, e, ap p e, str_eq_refl k.id, none_else)
count_other p k (j ∷ js) (inr m) h le =
    ground (arith, count_of_In p k js m h, count_other p k js m h)

newest-ne-none : (j : Job) (js : List Job) → newest (j ∷ js) ≢ none
unfolding newest
newest-ne-none j js h = ground (arith, h)

newest-In : (js : List Job) (k : Job) → newest js ≡ some k → In k js
unfolding newest
newest-In [] k h = cc
newest-In (j ∷ js) k h = go (newest js) refl h (newest-In js)
  where
    go :
        (o : Option Job)
        → newest js ≡ o
        → (elim o [
          | none ↦ some j
          | some m ↦ if text_ltb j.created_at m.created_at then some m else some j
        ])
          ≡ some k
        → ((m : Job) → newest js ≡ some m → In m js)
        → In k (j ∷ js)
    go none e q ih = inl (some-injective q)
    go (some m) e q ih = elim (Bool-cases (text_ltb j.created_at m.created_at)) [
      | inl later ↦ inr (ih k (e ∙ rw later at q))
      | inr earlier ↦ inl (some-injective (rw earlier at q))
    ]

newest-nil : (js : List Job) → newest js ≡ none → js ≡ []
newest-nil [] h = refl
newest-nil (j ∷ js) h = absurd (newest-ne-none j js h)

module _ (now : Text) (app_id : ℕ) (repo sha : Text) where
  live_le : (r : Runner) → live app_id repo sha r ≤ count (for_suite app_id repo sha) r.tables.jobs
  unfolding live
  live_le r = count_mono _ _ r.tables.jobs (λ j q. ground (arith, q))

  finished_not_live : (j : Job) → for_suite app_id repo sha (finished now superseded j) ≡ false
  unfolding in_flight_status
  finished_not_live j = ground arith

  cancel_queued-live :
      (id : Text) (r : Runner) (o : Option Job)
      → live app_id repo sha (cancel_queued now id r o).1 ≤ live app_id repo sha r
  unfolding live cancel_queued finish_job
  cancel_queued-live id r none = omega arith
  cancel_queued-live id r (some j) = elim (Bool-cases (in_flight j)) [
    | inl e ↦ rw e (
        count-update_le _ id (finished now superseded) r.tables.jobs
          (λ k. rw (finished_not_live k) refl))
    | inr e ↦ rw e (omega arith)
  ]

  cancel_job-live :
      (id : Text) (r : Runner)
      → live app_id repo sha (cancel_job now id r).1 ≤ live app_id repo sha r
  unfolding live cancel_job
  cancel_job-live id r = elim (Bool-cases (member id r.running)) [
    | inl e ↦ rw e (count_mono _ _ r.tables.jobs (λ j q. ground (arith, q)))
    | inr e ↦ rw e (cancel_queued-live id r (job id r.tables.jobs))
  ]

  cancel_all-live :
      (except : Text) (js : List Job) (r : Runner)
      → live app_id repo sha (cancel_all now except js r) ≤ live app_id repo sha r
  unfolding cancel_all
  cancel_all-live except [] r = omega arith
  cancel_all-live except (j ∷ js) r = elim (Bool-cases (str_eq j.sha except)) [
    | inl e ↦ rw e (cancel_all-live except js r)
    | inr e ↦
        rw e (
          omega
            (arith, cancel_all-live except js (cancel_job now j.id r).1, cancel_job-live j.id r))
  ]

  cancel_superseded-live :
      (of ref except : Text) (r : Runner)
      → live app_id repo sha (cancel_superseded now of ref except r) ≤ live app_id repo sha r
  unfolding cancel_superseded
  cancel_superseded-live of ref except r = elim (Bool-cases (is_nil ref)) [
    | inl e ↦ rw e (omega arith)
    | inr e ↦ rw e (cancel_all-live except _ r)
  ]

  stored-live :
      (id why : Text) (inp : JobInput) (r : Runner)
      → live app_id repo sha (stored why r (enqueue_job id now inp r.tables)).1
        ≤ suc (live app_id repo sha r)
  unfolding live stored enqueue_job
  stored-live id why inp r = elim (Bool-cases (is_nil inp.repo || is_nil inp.sha)) [
    | inl e ↦ rw e (omega arith)
    | inr e ↦ elim (Bool-cases (any (has_id id) r.tables.jobs)) [
      | inl d ↦ rw (e, d) (omega arith)
      | inr d ↦
          rw
            (
              e,
              d,
              count-append (is_live app_id repo sha r.signalled) r.tables.jobs
                  (new_job id now inp ∷ []),
            )
            (ground arith)
    ]
  ]

  cancel_found :
      (k : Job) (r : Runner)
      → UniqueIds r.tables.jobs
      → In k r.tables.jobs
      → for_suite app_id repo sha k ≡ true
      → count (for_suite app_id repo sha) r.tables.jobs ≤ 1
      → live app_id repo sha (cancel_job now k.id r).1 ≡ 0
  unfolding live cancel_job cancel_queued finish_job
  cancel_found k r u m h le = elim (Bool-cases (member k.id r.running)) [
    | inl e ↦
        let alone = count_other (for_suite app_id repo sha) k r.tables.jobs m h le in
        let fewer =
          count_mono (is_live app_id repo sha (k.id ∷ r.signalled))
            (λ j. for_suite app_id repo sha j && not (str_eq k.id j.id)) r.tables.jobs
            (λ j q. ground (arith, q)) in
        rw e (omega (arith, alone, fewer))
    | inr e ↦
        let found = job_of_In k r.tables.jobs u m in
        let flying : in_flight k ≡ true = ground (arith, h) in
        let gone =
          count-update_job (for_suite app_id repo sha) k.id (finished now superseded) k
            r.tables.jobs u found h (finished_not_live k) in
        let fewer =
          count_mono (is_live app_id repo sha r.signalled) (for_suite app_id repo sha)
            (update_job k.id (finished now superseded) r.tables.jobs) (λ j q. ground (arith, q)) in
        rw (e, found, flying) (omega (arith, gone, fewer))
  ]

module _ (id now : Text) (inp : JobInput) where
  enqueue-live :
      (r : Runner)
      → live inp.github_app_id inp.repo inp.sha r ≡ 0
      → live inp.github_app_id inp.repo inp.sha (enqueue id now inp r).1 ≤ 1
  unfolding enqueue
  enqueue-live r h =
      let r' = cancel_superseded now inp.repo inp.ref inp.sha r in
      omega (
        arith,
        h,
        cancel_superseded-live now inp.github_app_id inp.repo inp.sha inp.repo inp.ref inp.sha r,
        stored-live now inp.github_app_id inp.repo inp.sha id inp.skip_reason inp r',
      )

  after_suite-live :
      (action : Text) (r : Runner) (o : Option Job)
      → UniqueIds r.tables.jobs
      → count (for_suite inp.github_app_id inp.repo inp.sha) r.tables.jobs ≤ 1
      → ((k : Job)
          → o ≡ some k
          → In k r.tables.jobs × (for_suite inp.github_app_id inp.repo inp.sha k ≡ true))
      → (o ≡ none → count (for_suite inp.github_app_id inp.repo inp.sha) r.tables.jobs ≡ 0)
      → live inp.github_app_id inp.repo inp.sha (after_suite id now action inp r o).1 ≤ 1
  unfolding after_suite
  after_suite-live action r none u le found absent =
      enqueue-live r (omega (arith, absent refl, live_le now inp.github_app_id inp.repo inp.sha r))
  after_suite-live action r (some k) u le found absent =
      elim (Bool-cases (str_eq action requested)) [
        | inl e ↦ rw e (omega (arith, le, live_le now inp.github_app_id inp.repo inp.sha r))
        | inr e ↦ rw e (
            enqueue-live (cancel_job now k.id r).1 (
              cancel_found now inp.github_app_id inp.repo inp.sha k r u (found k refl).0
                (found k refl).1 le))
      ]

  -- If no two jobs have one id and a commit, of a named repository, has at most one job in flight, then
  -- a delivery for it leaves at most one live: one that is in flight and was not told to stop.
  pub admit-live :
      (action : Text) (r : Runner)
      → UniqueIds r.tables.jobs
      → is_nil inp.repo ≡ false
      → is_nil inp.sha ≡ false
      → count (for_suite inp.github_app_id inp.repo inp.sha) r.tables.jobs ≤ 1
      → live inp.github_app_id inp.repo inp.sha (admit id now action inp r).1 ≤ 1
  unfolding admit after_delivery in_flight_job_for_suite
  admit-live action r u hr hs le = go (in_flight_job_for_delivery inp.delivery_id r.tables.jobs)
    where
      js : List Job
      js = filter (for_suite inp.github_app_id inp.repo inp.sha) r.tables.jobs

      go :
          (o : Option Job)
          → live inp.github_app_id inp.repo inp.sha (after_delivery id now action inp r o).1 ≤ 1
      go (some k) = omega (arith, le, live_le now inp.github_app_id inp.repo inp.sha r)
      go none =
          rw (hr, hs)
            (after_suite-live action r (newest js) u le
              (λ k e.
                In-filter (for_suite inp.github_app_id inp.repo inp.sha) k r.tables.jobs
                  (newest-In js k e))
              (λ e.
                sym (length-filter (for_suite inp.github_app_id inp.repo inp.sha) r.tables.jobs)
                ∙ ap length (newest-nil js e)))
