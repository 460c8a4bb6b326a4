-- ===== src/Queue/Runner/Drain.antt =====
-- What `drain` keeps and what it achieves.
use mathlib.Core.Path.{subst}
use openpreflight.Prelude.{
  ℕ, zero, suc, ◌≤◌, ◌<◌, ◌≡◌, refl, Bool-cases, inl, inr, ◌⊎◌, List, Option, none, some,
  some-injective, arith, leb, count, max,
}
use openpreflight.Go.Strings.{Text}
use openpreflight.Store.Models.{Job, Settings, is_queued}
use openpreflight.Store.Jobs.{claim_next_job}
use openpreflight.Store.Jobs.Claim.{claim_next_job-none}
use openpreflight.Store.Jobs.Rows.{UniqueIds}
use openpreflight.Store.Jobs.Backlog.{claim_next_job-count}
use openpreflight.Queue.Runner.{
  Runner, active, limit_of, start_job, claimed_by, drain_round, unless_done, drain, member,
}

start_job-active :
    (id : Text) (rows : List Job) (r : Runner) → active (start_job id rows r) ≤ suc (active r)
start_job-active id rows r = elim (Bool-cases (member id r.running)) [
  | inl e ↦ rw e (omega arith)
  | inr e ↦ rw e (omega arith)
]

claimed_by-active :
    (r r' : Runner) (c : Option (Job × List Job))
    → claimed_by r c ≡ some r'
    → active r' ≤ suc (active r)
unfolding claimed_by
claimed_by-active r r' none h = cc
claimed_by-active r r' (some (j, rows)) h =
    subst (λ s. active s ≤ suc (active r)) (some-injective h) (start_job-active j.id rows r)

drain_round-active :
    (settings : Settings) (now : Text) (r r' : Runner)
    → drain_round settings now r ≡ some r'
    → active r' ≤ limit_of settings
unfolding drain_round
drain_round-active settings now r r' h = elim (Bool-cases (leb (limit_of settings) (active r))) [
  | inl e ↦ let h' = rw e at h in cc
  | inr e ↦
      let q = claimed_by-active r r' (claim_next_job now r.tables.jobs) (rw e at h) in
      ground (arith, e, q)
]

-- However often it claims, `drain` never has more jobs running than the limit, or than were running
-- when it was called.
pub drain_bound :
    (n : ℕ) (clock : ℕ → Text) (settings : Settings) (r : Runner)
    → active (drain n clock settings r) ≤ max (limit_of settings) (active r)
unfolding drain
drain_bound zero clock settings r = omega arith
drain_bound (suc n) clock settings r = go (drain_round settings (clock n) r) (λ r' e.
    omega (arith, drain_bound n clock settings r', drain_round-active settings (clock n) r r' e))
  where
    go :
        (o : Option Runner)
        → ((r' : Runner)
            → o ≡ some r'
            → active (drain n clock settings r') ≤ max (limit_of settings) (active r))
        → active (unless_done r o (λ s. drain n clock settings s))
          ≤ max (limit_of settings) (active r)
    go none f = omega arith
    go (some r') f = f r' refl

claimed_by-none : (r : Runner) (c : Option (Job × List Job)) → claimed_by r c ≡ none → c ≡ none
unfolding claimed_by
claimed_by-none r none h = refl
claimed_by-none r (some (j, rows)) h = cc

-- What stops `drain`: the limit, or no queued job.
abbrev pub Settled : Settings → Runner → Type 0
Settled settings r = (limit_of settings ≤ active r) ⊎ (count is_queued r.tables.jobs ≡ 0)

drain_round-Settled :
    (settings : Settings) (now : Text) (r : Runner)
    → drain_round settings now r ≡ none
    → Settled settings r
unfolding drain_round
drain_round-Settled settings now r h = elim (Bool-cases (leb (limit_of settings) (active r))) [
  | inl e ↦ inl (ground (arith, e))
  | inr e ↦ inr ((claim_next_job-none now r.tables.jobs).0 (claimed_by-none r _ (rw e at h)))
]

claimed_by-count :
    (now : Text) (r r' : Runner) (c : Option (Job × List Job))
    → UniqueIds r.tables.jobs
    → claim_next_job now r.tables.jobs ≡ c
    → claimed_by r c ≡ some r'
    → (count is_queued r.tables.jobs ≡ suc (count is_queued r'.tables.jobs))
      × UniqueIds r'.tables.jobs
unfolding claimed_by
claimed_by-count now r r' none u e h = cc
claimed_by-count now r r' (some (j, rows)) u e h =
    subst
      (λ s.
        (count is_queued r.tables.jobs ≡ suc (count is_queued s.tables.jobs))
        × UniqueIds s.tables.jobs)
      (some-injective h) (claim_next_job-count now r.tables.jobs j rows u e)

drain_round-count :
    (settings : Settings) (now : Text) (r r' : Runner)
    → UniqueIds r.tables.jobs
    → drain_round settings now r ≡ some r'
    → (count is_queued r.tables.jobs ≡ suc (count is_queued r'.tables.jobs))
      × UniqueIds r'.tables.jobs
unfolding drain_round
drain_round-count settings now r r' u h = elim (Bool-cases (leb (limit_of settings) (active r))) [
  | inl e ↦ let h' = rw e at h in cc
  | inr e ↦ claimed_by-count now r r' _ u refl (rw e at h)
]

-- Where no two jobs have one id, and with more rounds than there are queued jobs, `drain` stops by itself: either as many jobs run as
-- the limit allows, or no job is queued any more.
pub drain-Settled :
    (n : ℕ) (clock : ℕ → Text) (settings : Settings) (r : Runner)
    → UniqueIds r.tables.jobs
    → count is_queued r.tables.jobs < n
    → Settled settings (drain n clock settings r)
unfolding drain
drain-Settled zero clock settings r u h = absurd (omega arith)
drain-Settled (suc n) clock settings r u h =
    go (drain_round settings (clock n) r) refl (λ r'. drain-Settled n clock settings r')
  where
    go :
        (o : Option Runner)
        → drain_round settings (clock n) r ≡ o
        → ((r' : Runner)
            → UniqueIds r'.tables.jobs
            → count is_queued r'.tables.jobs < n
            → Settled settings (drain n clock settings r'))
        → Settled settings (unless_done r o (λ s. drain n clock settings s))
    go none e ih = drain_round-Settled settings (clock n) r e
    go (some r') e ih =
        let (fewer, u') = drain_round-count settings (clock n) r r' u e in ih r' u' (omega arith)
