-- ===== src/Store/Jobs/Backlog.antt =====
-- A claim makes the backlog shorter.
use mathlib.Core.Path.{subst}
use openpreflight.Prelude.{
  suc, ◌≡◌, refl, Bool, true, false, Bool-cases, inl, inr, List, [], ◌∷◌, Option, none, some,
  some-injective, arith, any, count, filter,
}
use openpreflight.Go.Strings.{Text, str_eq, str_eq_iff}
use openpreflight.Store.Models.{Job, is_queued}
use openpreflight.Store.Jobs.{has_id, job, update_job, started, oldest, claim_of, claim_next_job}
use openpreflight.Store.Jobs.Rows.{UniqueIds, KeepsId, In-filter, job_of_In, update_job-UniqueIds}
use openpreflight.Store.Jobs.Claim.{oldest_lem}

pub update_job_absent :
    (id : Text) (f : Job → Job) (js : List Job)
    → any (has_id id) js ≡ false
    → update_job id f js ≡ js
unfolding update_job
update_job_absent id f [] h = refl
update_job_absent id f (j ∷ js) h = ground (arith, update_job_absent id f js)

-- An update that ends a property of its row: one row fewer has it.
pub count-update_job :
    (p : Job → Bool) (id : Text) (f : Job → Job) (j : Job) (js : List Job)
    → UniqueIds js
    → job id js ≡ some j
    → p j ≡ true
    → p (f j) ≡ false
    → count p js ≡ suc (count p (update_job id f js))
unfolding job update_job
count-update_job p id f j [] u h a b = cc
count-update_job p id f j (k ∷ js) (u, us) h a b = elim (Bool-cases (str_eq k.id id)) [
  | inl e ↦
      let same : k ≡ j = some-injective (rw e at h) in
      let absent =
        update_job_absent id f js
          (subst (λ i. any (has_id i) js ≡ false) ((str_eq_iff k.id id).0 e) u) in
      rw (e, absent, same, a, b) refl
  | inr e ↦
      let rest = count-update_job p id f j js us (rw e at h) a b in rw e (ground (arith, rest))
]

-- What a claim leaves: one job fewer is queued, and the ids are still unique.
pub claim_next_job-count :
    (now : Text) (js : List Job) (taken : Job) (js' : List Job)
    → UniqueIds js
    → claim_next_job now js ≡ some (taken, js')
    → (count is_queued js ≡ suc (count is_queued js')) × UniqueIds js'
unfolding claim_next_job
claim_next_job-count now js taken js' u h = go (oldest (filter is_queued js)) refl h
  where
    go :
        (o : Option Job)
        → oldest (filter is_queued js) ≡ o
        → claim_of now js o ≡ some (taken, js')
        → (count is_queued js ≡ suc (count is_queued js')) × UniqueIds js'
    go none e q = cc
    go (some j) e q =
        let (listed, waiting) = In-filter is_queued j js (oldest_lem (filter is_queued js) j e).0 in
        let found = job_of_In j js u listed in
        let keeps : KeepsId (started now) = λ k. refl in
        subst
          (λ (r : Job × List Job). (count is_queued js ≡ suc (count is_queued r.1)) × UniqueIds r.1)
          (some-injective q)
          (
            count-update_job is_queued j.id (started now) j js u found waiting refl,
            update_job-UniqueIds j.id (started now) keeps js u,
          )
