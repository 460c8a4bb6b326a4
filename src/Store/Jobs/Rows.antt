-- ===== src/Store/Jobs/Rows.antt =====
-- Rows found by their id, the uniqueness of ids, and the order of time columns.
use mathlib.Core.Option
use openpreflight.Prelude.{
  ◌≡◌, refl, sym, ◌∙◌, ap, Bool, true, false, Bool-cases, inl, inr, ◌⊎◌, List, [], ◌∷◌, some, arith,
  if◌then◌else◌, any, filter, All,
}
use openpreflight.Go.Strings.{Text, str_eq, str_eq_iff, str_eq_refl}
use openpreflight.Store.Models.{Job}
use openpreflight.Store.Jobs.{text_ltb, has_id, job, update_job}

pub text_ltb_asym : (s t : Text) → text_ltb s t ≡ true → text_ltb t s ≡ false
unfolding text_ltb
text_ltb_asym [] [] h = refl
text_ltb_asym [] (d ∷ t) h = refl
text_ltb_asym (c ∷ s) [] h = cc
text_ltb_asym (c ∷ s) (d ∷ t) h = ground (arith, text_ltb_asym s t)

pub text_ltb_irrefl : (s : Text) → text_ltb s s ≡ false
unfolding text_ltb
text_ltb_irrefl [] = refl
text_ltb_irrefl (c ∷ s) = ground (arith, text_ltb_irrefl s)

-- What is before `t` is before everything that is not before `t`.
pub text_ltb_cotrans :
    (s t u : Text) → text_ltb s t ≡ true → text_ltb u t ≡ false → text_ltb s u ≡ true
unfolding text_ltb
text_ltb_cotrans s [] u h k = cc
text_ltb_cotrans [] (d ∷ t) [] h k = cc
text_ltb_cotrans [] (d ∷ t) (e ∷ u) h k = refl
text_ltb_cotrans (c ∷ s) (d ∷ t) [] h k = cc
text_ltb_cotrans (c ∷ s) (d ∷ t) (e ∷ u) h k = ground (arith, text_ltb_cotrans s t u)

-- No two rows have one id.
abbrev pub UniqueIds : List Job → Type 0
UniqueIds [] = Unit
UniqueIds (j ∷ js) = (any (has_id j.id) js ≡ false) × UniqueIds js

-- A change of a row that leaves its id alone.
abbrev pub KeepsId : (Job → Job) → Type 0
KeepsId f = (j : Job) → (f j).id ≡ j.id

module _ (id : Text) (f : Job → Job) (keeps : KeepsId f) where
  pub any-update_job :
      (x : Text) (js : List Job) → any (has_id x) (update_job id f js) ≡ any (has_id x) js
  unfolding update_job
  any-update_job x [] = refl
  any-update_job x (j ∷ js) = ground (arith, keeps j, any-update_job x js)

  pub update_job-UniqueIds : (js : List Job) → UniqueIds js → UniqueIds (update_job id f js)
  unfolding update_job
  update_job-UniqueIds [] h = tt
  update_job-UniqueIds (j ∷ js) (h, hs) = elim (Bool-cases (str_eq j.id id)) [
    | inl e ↦ rw e (rw (keeps j, any-update_job j.id js) h, update_job-UniqueIds js hs)
    | inr e ↦ rw e (rw (any-update_job j.id js) h, update_job-UniqueIds js hs)
  ]

  -- An update changes the row with its id, and no other.
  pub job-update_job :
      (x : Text) (js : List Job)
      → job x (update_job id f js) ≡ (if str_eq id x then Option.map f (job x js) else job x js)
  unfolding job update_job
  job-update_job x [] = ground arith
  job-update_job x (j ∷ js) =
      ground (
        arith,
        keeps j,
        str_eq_iff j.id id,
        str_eq_iff j.id x,
        str_eq_iff id x,
        job-update_job x js,
      )

abbrev pub In : Job → List Job → Type 0
In k [] = ⊥
In k (j ∷ js) = (j ≡ k) ⊎ In k js

pub In-filter :
    (p : Job → Bool) (k : Job) (js : List Job) → In k (filter p js) → In k js × (p k ≡ true)
In-filter p k [] h = absurd h
In-filter p k (j ∷ js) h = go (p j) refl h (In-filter p k js)
  where
    go :
        (b : Bool)
        → p j ≡ b
        → In k (if b then j ∷ filter p js else filter p js)
        → (In k (filter p js) → In k js × (p k ≡ true))
        → ((j ≡ k) ⊎ In k js) × (p k ≡ true)
    go true e (inl q) rest = (inl q, ap p (sym q) ∙ e)
    go true e (inr m) rest = (inr (rest m).0, (rest m).1)
    go false e m rest = (inr (rest m).0, (rest m).1)

pub All-filter :
    (P : Job → Type 0) (p : Job → Bool) (js : List Job)
    → All P (filter p js)
    → All (λ j. p j ≡ true → P j) js
All-filter P p [] h = tt
All-filter P p (j ∷ js) h = elim (Bool-cases (p j)) [
  | inl e ↦ let h' = rw e at h in ((λ q. h'.0), All-filter P p js h'.1)
  | inr e ↦ ((λ q. cc (e, q)), All-filter P p js (rw e at h))
]

any_of_In : (k : Job) (js : List Job) → In k js → any (has_id k.id) js ≡ true
any_of_In k [] h = absurd h
any_of_In k (j ∷ js) (inl e) = rw (e, str_eq_refl k.id)
any_of_In k (j ∷ js) (inr m) = ground (arith, any_of_In k js m)

-- A row is found by its id.
pub job_of_In : (k : Job) (js : List Job) → UniqueIds js → In k js → job k.id js ≡ some k
unfolding job
job_of_In k [] u h = absurd h
job_of_In k (j ∷ js) u (inl e) = rw (e, str_eq_refl k.id)
job_of_In k (j ∷ js) (u, us) (inr m) =
    ground (arith, job_of_In k js us m, any_of_In k js m, str_eq_iff j.id k.id)
