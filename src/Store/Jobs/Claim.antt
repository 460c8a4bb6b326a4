-- ===== src/Store/Jobs/Claim.antt =====
-- `ClaimNextJob` takes the queued job with the first created_at, in the order of texts.
use mathlib.Core.Path.{subst}
use openpreflight.Prelude.{
  ◌≡◌, ◌≢◌, refl, sym, ◌∙◌, ap, ◌↔◌, true, false, Bool-cases, inl, inr, List, [], ◌∷◌, Option, none,
  some, some-injective, arith, if◌then◌else◌, filter, count, length, length-filter, All,
}
use openpreflight.Go.Strings.{Text, str_eq, str_eq_iff}
use openpreflight.Store.Models.{Job, queued, is_queued}
use openpreflight.Store.Jobs.{text_ltb, job, update_job, oldest, started, claim_of, claim_next_job}
use openpreflight.Store.Jobs.Rows.{
  text_ltb_asym, text_ltb_irrefl, text_ltb_cotrans, UniqueIds, KeepsId, job-update_job, In,
  In-filter, All-filter, job_of_In,
}

abbrev NotBefore : Job → Job → Type 0
NotBefore k j = text_ltb j.created_at k.created_at ≡ false

NotBefore-trans :
    (j k : Job) (js : List Job)
    → text_ltb k.created_at j.created_at ≡ false
    → All (NotBefore k) js
    → All (NotBefore j) js
NotBefore-trans j k [] h hs = tt
NotBefore-trans j k (i ∷ js) h (hi, hs) = (
  ground (arith, text_ltb_cotrans i.created_at j.created_at k.created_at),
  NotBefore-trans j k js h hs,
)

oldest-ne-none : (j : Job) (js : List Job) → oldest (j ∷ js) ≢ none
unfolding oldest
oldest-ne-none j js h = ground (arith, h)

eq-In : (j k : Job) (js : List Job) → some j ≡ some k → In k (j ∷ js)
eq-In j k js h = inl (some-injective h)

pub oldest_lem : (js : List Job) (k : Job) → oldest js ≡ some k → In k js × All (NotBefore k) js
unfolding oldest
oldest_lem [] k h = cc
oldest_lem (j ∷ []) k h = (
  eq-In j k [] h,
  (subst (λ i. NotBefore i j) (some-injective h) (text_ltb_irrefl j.created_at), tt),
)
oldest_lem (j ∷ i ∷ js) k h = go (oldest (i ∷ js)) refl h (oldest_lem (i ∷ js))
  where
    go :
        (o : Option Job)
        → oldest (i ∷ js) ≡ o
        → (elim o [
          | none ↦ some j
          | some m ↦ if text_ltb m.created_at j.created_at then some m else some j
        ])
          ≡ some k
        → ((m : Job) → oldest (i ∷ js) ≡ some m → In m (i ∷ js) × All (NotBefore m) (i ∷ js))
        → In k (j ∷ i ∷ js) × All (NotBefore k) (j ∷ i ∷ js)
    go none e q ih = absurd (oldest-ne-none i js e)
    go (some m) e q ih = elim (Bool-cases (text_ltb m.created_at j.created_at)) [
      | inl earlier ↦
          let same : m ≡ k = some-injective (rw earlier at q) in
          subst (λ n. In n (j ∷ i ∷ js) × All (NotBefore n) (j ∷ i ∷ js)) same
            (inr (ih m e).0, (text_ltb_asym m.created_at j.created_at earlier, (ih m e).1))
      | inr later ↦
          let same : j ≡ k = some-injective (rw later at q) in
          subst (λ n. In n (j ∷ i ∷ js) × All (NotBefore n) (j ∷ i ∷ js)) same
            (
              inl refl,
              (text_ltb_irrefl j.created_at, NotBefore-trans j m (i ∷ js) later (ih m e).1),
            )
    ]

-- What a claim returns and does.
pub record Claims (now : Text) (js : List Job) (taken : Job) (js' : List Job) : Type 0 where
  pub claimed : Job
  pub was : job taken.id js ≡ some claimed
  pub was_queued : claimed.status ≡ queued
  pub is : taken ≡ started now claimed
  pub first : All (λ k. is_queued k ≡ true → text_ltb k.created_at claimed.created_at ≡ false) js
  pub after : (id : Text) → job id js' ≡ (if str_eq taken.id id then some taken else job id js)

queued_of : (j : Job) → is_queued j ≡ true → j.status ≡ queued
queued_of j h = ground arith

started-KeepsId : (now : Text) → KeepsId (started now)
started-KeepsId now j = refl

claimed-Claims :
    (now : Text) (js : List Job) (j : Job)
    → UniqueIds js
    → oldest (filter is_queued js) ≡ some j
    → Claims now js (started now j) (update_job j.id (started now) js)
claimed-Claims now js j u h =
    let (there, first) = oldest_lem (filter is_queued js) j h in
    let (listed, waiting) = In-filter is_queued j js there in
    let found = job_of_In j js u listed in
    record {
      claimed = j;
      was = found;
      was_queued = queued_of j waiting;
      is = refl;
      first = All-filter (NotBefore j) is_queued js first;
      after = λ id. ground (
        arith,
        job-update_job j.id (started now) (started-KeepsId now) id js,
        found,
        str_eq_iff j.id id,
      );
    }

-- Where no two jobs have one id: a claim takes a queued job such that no queued job's created_at comes
-- before its own in the order of texts, which is not that of times (format_time_reversed). It starts that
-- job, returns it as it now stands, and leaves every other row alone.
pub claim_next_job-Claims :
    (now : Text) (js : List Job) (taken : Job) (js' : List Job)
    → UniqueIds js
    → claim_next_job now js ≡ some (taken, js')
    → Claims now js taken js'
unfolding claim_next_job
claim_next_job-Claims now js taken js' u h = go (oldest (filter is_queued js)) refl h
  where
    go :
        (o : Option Job)
        → oldest (filter is_queued js) ≡ o
        → claim_of now js o ≡ some (taken, js')
        → Claims now js taken js'
    go none e q = cc
    go (some j) e q =
        subst (λ (r : Job × List Job). Claims now js r.0 r.1) (some-injective q)
          (claimed-Claims now js j u e)

oldest-none : (js : List Job) → oldest js ≡ none → js ≡ []
oldest-none [] h = refl
oldest-none (j ∷ js) h = absurd (oldest-ne-none j js h)

claim_of-none : (now : Text) (js : List Job) (o : Option Job) → claim_of now js o ≡ none → o ≡ none
unfolding claim_of
claim_of-none now js none h = refl
claim_of-none now js (some j) h = cc

no_claim : (now : Text) (js ks : List Job) → length ks ≡ 0 → claim_of now js (oldest ks) ≡ none
unfolding claim_of oldest
no_claim now js [] h = refl
no_claim now js (k ∷ ks) h = cc

-- A claim finds nothing exactly when no job is queued.
pub claim_next_job-none :
    (now : Text) (js : List Job) → (claim_next_job now js ≡ none) ↔ (count is_queued js ≡ 0)
unfolding claim_next_job
claim_next_job-none now js = (
  (λ h.
      rw (← length-filter is_queued js)
        (ap length (oldest-none (filter is_queued js) (claim_of-none now js _ h)))),
  λ h. no_claim now js (filter is_queued js) (length-filter is_queued js ∙ h),
)

-- The row that a claim takes, and what it writes.
pub claim_next_job-row :
    (now : Text) (js : List Job) (taken : Job) (js' : List Job)
    → claim_next_job now js ≡ some (taken, js')
    → (k : Job) × In k js
      × (is_queued k ≡ true)
      × (taken.id ≡ k.id)
      × (js' ≡ update_job k.id (started now) js)
unfolding claim_next_job
claim_next_job-row now js taken js' h = go (oldest (filter is_queued js)) refl h
  where
    go :
        (o : Option Job)
        → oldest (filter is_queued js) ≡ o
        → claim_of now js o ≡ some (taken, js')
        → (k : Job) × In k js
          × (is_queued k ≡ true)
          × (taken.id ≡ k.id)
          × (js' ≡ update_job k.id (started now) js)
    go none e q = cc
    go (some k) e q =
        let (listed, waiting) = In-filter is_queued k js (oldest_lem (filter is_queued js) k e).0 in
        let both = some-injective q in
        (
          k,
          listed,
          waiting,
          ap (λ (r : Job × List Job). r.0.id) (sym both),
          ap (λ (r : Job × List Job). r.1) (sym both),
        )
