-- ===== src/Store/Jobs/Retention.antt =====
-- What retention removes.
use openpreflight.Prelude.{
  ◌≡◌, refl, sym, ◌∙◌, ap, Bool, false, not, ◌&&◌, ◌||◌, List, [], ◌∷◌, map, arith, filter,
  filter-congr, filter-filter, filter_all, All-any, any, All,
}
use openpreflight.Go.Strings.{Text, str_eq, str_eq_iff, str_eq_refl}
use openpreflight.Store.Models.{Job, in_flight}
use openpreflight.Store.Jobs.{
  has_id, text_ltb, is_stale, delete_job, delete_jobs, Tables, prune_jobs,
}
use openpreflight.Store.Jobs.Rows.{UniqueIds}

abbrev pub listed_in : List Text → Text → Bool
listed_in ids id = any (λ x. str_eq id x) ids

pub delete_jobs_lem :
    (ids : List Text) (js : List Job)
    → delete_jobs ids js ≡ filter (λ j. not (listed_in ids j.id)) js
unfolding delete_jobs delete_job
delete_jobs_lem [] js = sym (filter_all js)
delete_jobs_lem (id ∷ ids) js =
    delete_jobs_lem ids (filter (λ j. not (str_eq j.id id)) js)
    ∙ (filter-filter (λ j. not (listed_in ids j.id)) (λ j. not (str_eq j.id id)) js
        ∙ filter-congr _ _ js (not_or ids id js))
  where
    not_or :
        (ids : List Text) (id : Text) (js : List Job)
        → All
            (λ (j : Job).
              (not (str_eq j.id id) && not (listed_in ids j.id)) ≡ not (listed_in (id ∷ ids) j.id))
            js
    not_or ids id [] = tt
    not_or ids id (j ∷ js) = (ground arith, not_or ids id js)

module _ (p : Job → Bool) where
  abbrev pub ids_of : List Job → List Text
  ids_of js = map (λ (j : Job). j.id) (filter p js)

  -- An id that no row has is not listed.
  not_listed :
      (x : Text) (js : List Job) → any (has_id x) js ≡ false → listed_in (ids_of js) x ≡ false
  not_listed x [] h = refl
  not_listed x (j ∷ js) h = ground (arith, not_listed x js, str_eq_iff j.id x, str_eq_iff x j.id)

  listed_tail :
      (j : Job) (js ks : List Job)
      → All (λ (k : Job). str_eq k.id j.id ≡ false) ks
      → All (λ (k : Job). listed_in (ids_of js) k.id ≡ p k) ks
      → All (λ (k : Job). listed_in (ids_of (j ∷ js)) k.id ≡ p k) ks
  listed_tail j js [] h hs = tt
  listed_tail j js (k ∷ ks) (h, h') (hs, hs') = (ground (arith, h, hs), listed_tail j js ks h' hs')

  -- The ids of the rows that pass a test list just those rows.
  listed-ids_of :
      (js : List Job) → UniqueIds js → All (λ (j : Job). listed_in (ids_of js) j.id ≡ p j) js
  listed-ids_of [] u = tt
  listed-ids_of (j ∷ js) (u, us) = (
    ground (arith, str_eq_refl j.id, not_listed j.id js u),
    listed_tail j js js (All-any (has_id j.id) js u) (listed-ids_of js us),
  )

not_all :
    (p q : Job → Bool) (js : List Job)
    → All (λ j. p j ≡ q j) js
    → All (λ j. not (p j) ≡ not (q j)) js
not_all p q [] h = tt
not_all p q (j ∷ js) (h, hs) = (ap not h, not_all p q js hs)

-- Where no two jobs have one id, retention keeps, in their order, exactly the jobs that are in flight or
-- whose created_at does not come before the cutoff's text in the order of texts, which is not that of
-- times (format_time_reversed), and the deliveries whose received_at does not. It returns the other jobs'
-- ids.
pub prune_jobs_lem :
    (cutoff : Text) (t : Tables)
    → UniqueIds t.jobs
    → ((prune_jobs cutoff t).1.jobs
        ≡ filter (λ j. in_flight j || not (text_ltb j.created_at cutoff)) t.jobs)
      × ((prune_jobs cutoff t).1.deliveries
          ≡ filter (λ d. not (text_ltb d.received_at cutoff)) t.deliveries)
      × ((prune_jobs cutoff t).0
          ≡ map
              (λ (j : Job). j.id)
              (filter (λ j. not (in_flight j || not (text_ltb j.created_at cutoff))) t.jobs))
unfolding prune_jobs
prune_jobs_lem cutoff t u = (
  delete_jobs_lem (ids_of (is_stale cutoff) t.jobs) t.jobs
      ∙ (filter-congr _ _ t.jobs
            (not_all _ (is_stale cutoff) t.jobs (listed-ids_of (is_stale cutoff) t.jobs u))
          ∙ filter-congr _ _ t.jobs (same t.jobs)),
  refl,
  ap (map (λ (j : Job). j.id)) (filter-congr _ _ t.jobs (same' t.jobs)),
)
  where
    same :
        (js : List Job)
        → All
            (λ (j : Job).
              not (is_stale cutoff j) ≡ (in_flight j || not (text_ltb j.created_at cutoff)))
            js
    same [] = tt
    same (j ∷ js) = (ground arith, same js)

    same' :
        (js : List Job)
        → All
            (λ (j : Job).
              is_stale cutoff j ≡ not (in_flight j || not (text_ltb j.created_at cutoff)))
            js
    same' [] = tt
    same' (j ∷ js) = (ground arith, same' js)

-- Retention filters the rows.
pub prune_jobs-filter :
    (cutoff : Text) (t : Tables)
    → (prune_jobs cutoff t).1.jobs
      ≡ filter (λ j. not (listed_in (ids_of (is_stale cutoff) t.jobs) j.id)) t.jobs
unfolding prune_jobs
prune_jobs-filter cutoff t = delete_jobs_lem (ids_of (is_stale cutoff) t.jobs) t.jobs
