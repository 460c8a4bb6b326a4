-- ===== src/Queue/System/Rows.antt =====
-- What every row satisfies, kept by the statements on the table.
use openpreflight.Prelude.{
  ◌≡◌, refl, Bool, true, false, Bool-cases, inl, inr, List, [], ◌∷◌, ◌++◌, map, filter, any, arith,
  All, any-append,
}
use openpreflight.Go.Strings.{Text, str_eq_iff}
use openpreflight.Store.Models.{Job}
use openpreflight.Store.Jobs.{has_id, update_job}
use openpreflight.Store.Jobs.Rows.{UniqueIds, In}

pub All-filter_rows :
    (Q : Job → Type 0) (p : Job → Bool) (js : List Job) → All Q js → All Q (filter p js)
All-filter_rows Q p [] h = tt
All-filter_rows Q p (j ∷ js) (h, hs) = elim (Bool-cases (p j)) [
  | inl e ↦ rw e (h, All-filter_rows Q p js hs)
  | inr e ↦ rw e (All-filter_rows Q p js hs)
]

pub All-update_job :
    (Q : Job → Type 0) (id : Text) (f : Job → Job) (js : List Job)
    → ((j : Job) → has_id id j ≡ true → Q j → Q (f j))
    → All Q js
    → All Q (update_job id f js)
unfolding update_job
All-update_job Q id f [] k h = tt
All-update_job Q id f (j ∷ js) k (h, hs) = elim (Bool-cases (has_id id j)) [
  | inl e ↦ rw e (k j e h, All-update_job Q id f js k hs)
  | inr e ↦ rw e (h, All-update_job Q id f js k hs)
]

pub All-In : (Q : Job → Type 0) (k : Job) (js : List Job) → All Q js → In k js → Q k
All-In Q k [] h m = absurd m
All-In Q k (j ∷ js) (h, hs) (inl e) = rw (← e) h
All-In Q k (j ∷ js) (h, hs) (inr m) = All-In Q k js hs m

pub All-mono : (Q R : Job → Type 0) (js : List Job) → ((j : Job) → Q j → R j) → All Q js → All R js
All-mono Q R [] k h = tt
All-mono Q R (j ∷ js) k (h, hs) = (k j h, All-mono Q R js k hs)

pub All-map_rows :
    (Q R : Job → Type 0) (f : Job → Job) (js : List Job)
    → ((j : Job) → Q j → R (f j))
    → All Q js
    → All R (map f js)
All-map_rows Q R f [] k h = tt
All-map_rows Q R f (j ∷ js) k (h, hs) = (k j h, All-map_rows Q R f js k hs)

any-filter_rows :
    (x : Text) (p : Job → Bool) (js : List Job)
    → any (has_id x) js ≡ false
    → any (has_id x) (filter p js) ≡ false
any-filter_rows x p [] h = refl
any-filter_rows x p (j ∷ js) h = ground (arith, any-filter_rows x p js)

pub UniqueIds-filter : (p : Job → Bool) (js : List Job) → UniqueIds js → UniqueIds (filter p js)
UniqueIds-filter p [] h = tt
UniqueIds-filter p (j ∷ js) (h, hs) = elim (Bool-cases (p j)) [
  | inl e ↦ rw e (any-filter_rows j.id p js h, UniqueIds-filter p js hs)
  | inr e ↦ rw e (UniqueIds-filter p js hs)
]

pub UniqueIds-append :
    (js : List Job) (k : Job)
    → any (has_id k.id) js ≡ false
    → UniqueIds js
    → UniqueIds (js ++ k ∷ [])
UniqueIds-append [] k h u = (refl, tt)
UniqueIds-append (j ∷ js) k h (u, us) = (
  rw (any-append (has_id j.id) js (k ∷ []))
      (ground (arith, h, str_eq_iff j.id k.id, str_eq_iff k.id j.id)),
  UniqueIds-append js k (ground arith) us,
)

any-map_rows :
    (x : Text) (f : Job → Job) (js : List Job)
    → ((j : Job) → (f j).id ≡ j.id)
    → any (has_id x) (map f js) ≡ any (has_id x) js
any-map_rows x f [] k = refl
any-map_rows x f (j ∷ js) k = ground (arith, k j, any-map_rows x f js k)

pub UniqueIds-map :
    (f : Job → Job) (js : List Job)
    → ((j : Job) → (f j).id ≡ j.id)
    → UniqueIds js
    → UniqueIds (map f js)
UniqueIds-map f [] k h = tt
UniqueIds-map f (j ∷ js) k (h, hs) = (rw (k j, any-map_rows j.id f js k) h, UniqueIds-map f js k hs)
