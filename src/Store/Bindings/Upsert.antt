-- ===== src/Store/Bindings/Upsert.antt =====
-- What storing a binding changes.
use openpreflight.Prelude.{
  ℕ, ◌≡◌, refl, true, false, Bool-cases, inl, inr, List, [], ◌∷◌, some, arith, find?,
}
use openpreflight.Go.Strings.{Text, str_eq_iff, str_eq_refl}
use openpreflight.Store.Models.{RepoBinding}
use openpreflight.Store.Bindings.{same_key, upsert_row}

same_key_refl : (b : RepoBinding) → same_key b b ≡ true
same_key_refl b = ground (arith, str_eq_refl b.repo)

same_key-other :
    (inp other b : RepoBinding)
    → same_key inp b ≡ true
    → same_key inp other ≡ false
    → same_key other b ≡ false
same_key-other inp other b h k = ground (
  arith,
  h,
  k,
  str_eq_iff b.repo inp.repo,
  str_eq_iff other.repo inp.repo,
  str_eq_iff b.repo other.repo,
)

-- The row of an App and a repository once an input for them is stored: what the input says, under
-- the id and the creation time of the row that was there, if one was.
pub record Stored (id : ℕ) (now : Text) (inp : RepoBinding) (rows : List RepoBinding) : Type 0 where
  pub row : RepoBinding
  pub found : find? (same_key inp) (upsert_row id now inp rows) ≡ some row
  pub enabled : row.enabled ≡ inp.enabled
  pub branches : row.branches ≡ inp.branches
  pub paths : row.paths ≡ inp.paths
  pub updated : row.updated_at ≡ now
  pub others :
      (other : RepoBinding)
      → same_key inp other ≡ false
      → find? (same_key other) (upsert_row id now inp rows) ≡ find? (same_key other) rows

others-unchanged :
    (id : ℕ) (now : Text) (inp : RepoBinding) (rows : List RepoBinding) (other : RepoBinding)
    → same_key inp other ≡ false
    → find? (same_key other) (upsert_row id now inp rows) ≡ find? (same_key other) rows
unfolding upsert_row
others-unchanged id now inp [] other h =
    rw (same_key-other inp other inp (same_key_refl inp) h) refl
others-unchanged id now inp (b ∷ rows) other h = elim (Bool-cases (same_key inp b)) [
  | inl e ↦ rw (e, same_key-other inp other b e h) refl
  | inr e ↦ elim (Bool-cases (same_key other b)) [
    | inl o ↦ rw (e, o) refl
    | inr o ↦ rw (e, o) (others-unchanged id now inp rows other h)
  ]
]

-- Storing an input makes its row the one that is found for its App and its repository, with what the
-- input says and the time of the change, and leaves the row of every other App or repository alone.
pub upsert_row-Stored :
    (id : ℕ) (now : Text) (inp : RepoBinding) (rows : List RepoBinding) → Stored id now inp rows
unfolding upsert_row
upsert_row-Stored id now inp [] = record {
  row = record inp { id = id; created_at = now; updated_at = now };
  found = rw (same_key_refl inp) refl;
  enabled = refl;
  branches = refl;
  paths = refl;
  updated = refl;
  others = others-unchanged id now inp [];
}
upsert_row-Stored id now inp (b ∷ rows) =
    let s = upsert_row-Stored id now inp rows in
    elim (Bool-cases (same_key inp b)) [
      | inl e ↦ record {
        row = record inp {
          id = b.id;
          github_app_id = b.github_app_id;
          repo = b.repo;
          created_at = b.created_at;
          updated_at = now;
        };
        found = rw (e, e) refl;
        enabled = refl;
        branches = refl;
        paths = refl;
        updated = refl;
        others = others-unchanged id now inp (b ∷ rows);
      }
      | inr e ↦ record {
        row = s.row;
        found = rw (e, e) s.found;
        enabled = s.enabled;
        branches = s.branches;
        paths = s.paths;
        updated = s.updated;
        others = others-unchanged id now inp (b ∷ rows);
      }
    ]
