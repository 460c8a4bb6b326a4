-- ===== src/Webhook/Payload/Forks.antt =====
-- What holds of an event that is acted on.
use mathlib.Core.Path.{subst}
use openpreflight.Prelude.{
  ◌≡◌, ◌≢◌, refl, ap, Bool, List, [], ◌∷◌, map, true, false, Bool-cases, inl, inr, ◌&&◌, ◌||◌,
  Option, some, ◌==◌, is_nil, any, arith, All, All-any,
}
use openpreflight.Go.Strings.{Text, str_eq, str_eq_iff, lower}
use openpreflight.Webhook.Payload.{
  RepoRef, PullRequestRef, RawPayload, Event, Subject, Parsed, actionable, ignored, malformed,
  event_check_suite, event_check_run, requested, rerequested, is_foreign, lacks_branch, is_fork,
  subject, event_of, complete_event, event_from, parse_payload, parse,
}

-- The event names and actions that are acted on.
abbrev pub acts_on : Text → Text → Bool
acts_on name action =
    str_eq name event_check_suite && (str_eq action requested || str_eq action rerequested)
    || str_eq name event_check_run && str_eq action rerequested

-- A pull request whose head is the repository `base`, as far as the payload says: the ids are the same
-- where it gives both, and the names, without regard to case, where it gives both.
pub record IsOwn (base : RepoRef) (pr : PullRequestRef) : Type 0 where
  pub same_id : (pr.head.repo.id ≢ 0) → (base.id ≢ 0) → pr.head.repo.id ≡ base.id
  pub same_name :
      (pr.head.repo.full_name ≢ [])
      → (base.full_name ≢ [])
      → map lower pr.head.repo.full_name ≡ map lower base.full_name

-- An event to act on: it says what to check out and whom to report to. If it is no fork's, every pull
-- request of it is the repository's own, and its suite, if there is one, has a branch.
pub record IsEvent (raw : RawPayload) (ev : Event) : Type 0 where
  pub subject_of : Subject
  pub has_repo : is_nil ev.repo ≡ false
  pub has_sha : is_nil ev.sha ≡ false
  pub has_installation : (ev.installation_id == 0) ≡ false
  pub acted_on : acts_on ev.name ev.action ≡ true
  pub selected : subject ev.name raw ≡ actionable subject_of
  pub own_branch : ev.is_fork ≡ false → lacks_branch subject_of.suite ≡ false
  pub own_heads : ev.is_fork ≡ false → All (IsOwn raw.repository) subject_of.prs

actionable-injective : {A : Type 0} {a b : A} → actionable a ≡ actionable b → a ≡ b
actionable-injective {A} {a} {b} h = ap (λ (p : Parsed A). from p) h
  where
    from : Parsed A → A
    from (actionable x) = x
    from (ignored w) = a
    from (malformed e) = a

subject-acts :
    (name : Text) (raw : RawPayload) (s : Subject)
    → subject name raw ≡ actionable s
    → acts_on name raw.action ≡ true
unfolding subject
subject-acts name raw s h = ground (arith, h)

or_split : (a b : Bool) → (a || b) ≡ false → (a ≡ false) × (b ≡ false)
or_split false b h = (refl, h)
or_split true b h = absurd (ground (arith, h))

nil_of : (s : Text) → is_nil s ≡ true → s ≡ []
nil_of [] h = refl
nil_of (c ∷ s) h = cc

given : (s : Text) → s ≢ [] → is_nil s ≡ false
given s h = elim (Bool-cases (is_nil s)) [ inl e ↦ absurd (h (nil_of s e)) | inr e ↦ e ]

not_foreign-IsOwn :
    (base : RepoRef) (pr : PullRequestRef) → is_foreign base pr ≡ false → IsOwn base pr
not_foreign-IsOwn base pr h = record {
  same_id = λ a b. ground (arith, h, a, b);
  same_name = λ a b.
      (str_eq_iff (map lower pr.head.repo.full_name) (map lower base.full_name)).0
        (ground (arith, h, given pr.head.repo.full_name a, given base.full_name b));
}

All-IsOwn :
    (base : RepoRef) (prs : List PullRequestRef)
    → All (λ pr. is_foreign base pr ≡ false) prs
    → All (IsOwn base) prs
All-IsOwn base [] h = tt
All-IsOwn base (pr ∷ prs) (h, hs) = (not_foreign-IsOwn base pr h, All-IsOwn base prs hs)

event_of-IsEvent :
    (name : Text) (raw : RawPayload) (s : Subject)
    → is_nil raw.repository.full_name ≡ false
    → subject name raw ≡ actionable s
    → is_nil (event_of name raw s).sha ≡ false
    → (raw.installation_id == 0) ≡ false
    → IsEvent raw (event_of name raw s)
unfolding is_fork
event_of-IsEvent name raw s repo selected sha installation = record {
  subject_of = s;
  has_repo = repo;
  has_sha = sha;
  has_installation = installation;
  acted_on = subject-acts name raw s selected;
  selected = selected;
  own_branch = λ h. (or_split (any (is_foreign raw.repository) s.prs) (lacks_branch s.suite) h).1;
  own_heads = λ h. All-IsOwn raw.repository s.prs (
      All-any (is_foreign raw.repository) s.prs
        (or_split (any (is_foreign raw.repository) s.prs) (lacks_branch s.suite) h).0);
}

complete-IsEvent :
    (name : Text) (raw : RawPayload) (s : Subject) (ev : Event)
    → is_nil raw.repository.full_name ≡ false
    → subject name raw ≡ actionable s
    → complete_event (event_of name raw s) ≡ actionable ev
    → IsEvent raw ev
unfolding complete_event
complete-IsEvent name raw s ev repo selected h =
    elim (Bool-cases (is_nil (event_of name raw s).sha)) [
      | inl e ↦ let h' = simp e at h in cc
      | inr e ↦ elim (Bool-cases (raw.installation_id == 0)) [
        | inl i ↦ let h' = simp (e, i) at h in cc
        | inr i ↦
            subst (λ x. IsEvent raw x) (actionable-injective (simp (e, i) at h))
              (event_of-IsEvent name raw s repo selected e i)
      ]
    ]

from-IsEvent :
    (name : Text) (raw : RawPayload) (p : Parsed Subject) (ev : Event)
    → is_nil raw.repository.full_name ≡ false
    → subject name raw ≡ p
    → event_from name raw p ≡ actionable ev
    → IsEvent raw ev
unfolding event_from
from-IsEvent name raw (ignored why) ev repo selected h = cc
from-IsEvent name raw (malformed e) ev repo selected h = cc
from-IsEvent name raw (actionable s) ev repo selected h =
    complete-IsEvent name raw s ev repo selected h

-- An event that `Parse` returns to act on has a repository, a head commit and an installation, and a
-- handled name and action. Unless it is marked as a fork's, its suite, if it has one, has a branch, and
-- the head of each of its pull requests has the id of the repository where the payload gives both ids,
-- and its name, without regard to case, where the payload gives both names.
pub parse-IsEvent :
    (decode : Text → Option RawPayload) (name body : Text) (raw : RawPayload) (ev : Event)
    → decode body ≡ some raw
    → parse decode name body ≡ actionable ev
    → IsEvent raw ev
unfolding parse parse_payload
parse-IsEvent decode name body raw ev decoded h =
    elim (Bool-cases (is_nil raw.repository.full_name)) [
      | inl e ↦ let h' = simp (decoded, e) at h in cc
      | inr e ↦ from-IsEvent name raw (subject name raw) ev e refl (simp (decoded, e) at h)
    ]
