-- ===== src/Store/Rotate.antt =====
-- internal/store/rotate.go: the secret columns sealed again under a new key. `nonces id column` is what is
-- drawn for a column of a row; the database's failures are not modelled.
pub mod Again
pub mod Resealing
use openpreflight.Prelude.{
  ℕ, suc, ◌+◌, Bool, true, false, not, ◌&&◌, List, [], ◌∷◌, Option, none, some, if◌then◌else◌,
  is_nil,
}
use openpreflight.Go.Strings.{Text}
use openpreflight.Secret.{
  Codec, Box, seal, open_sealed, Opened, plain, not_sealed, not_base64, too_short, wrong_key,
}

pub record AppSecrets : Type 0 where
  pub id : ℕ
  pub pem_enc : Text
  pub webhook_secret_enc : Text

pub record InstanceSecret : Type 0 where
  pub id : ℕ
  pub api_token_enc : Text

unfoldable pub reopened : Opened → Bool → Option (Text × Bool)
reopened (plain plaintext) already = some (plaintext, already)
reopened not_sealed already = none
reopened not_base64 already = none
reopened too_short already = none
reopened wrong_key already = none

abbrev pub or_reopened : Option (Text × Bool) → Option (Text × Bool) → Option (Text × Bool)
or_reopened none r = r
or_reopened (some p) r = some p

-- The plaintext, and whether the new key opened it; `none` is the error.
unfoldable pub reopen : Codec → Box → Box → Text → Option (Text × Bool)
unfolding reopened
reopen c old next sealed =
    if is_nil sealed
    then some ([], true)
    else or_reopened (reopened (open_sealed c next sealed) true)
        (reopened (open_sealed c old sealed) false)

-- What is stored: the column as it is, or sealed again.
abbrev pub resealed : Codec → Box → Text → Text → Text × Bool → Text
resealed c next nonce enc (plaintext, true) = enc
resealed c next nonce enc (plaintext, false) = seal c next nonce plaintext

-- A loop over rows: how many are written, whether it ended, and the rows.
pub record Rotated {ℓ} (A : Type ℓ) : Type ℓ where
  pub written : ℕ
  pub finished : Bool
  pub rows : List A

module _ {ℓ} {A : Type ℓ} where
  abbrev pub next_row : Option (Bool × A) → A → List A → Rotated A → Rotated A
  next_row none r rs rest = record { written = 0; finished = false; rows = r ∷ rs }
  next_row (some (true, r')) r rs rest = record {
    written = suc rest.written;
    finished = rest.finished;
    rows = r' ∷ rest.rows;
  }
  next_row (some (false, r')) r rs rest = record {
    written = rest.written;
    finished = rest.finished;
    rows = r ∷ rest.rows;
  }

  unfoldable pub rotate_rows : (A → Option (Bool × A)) → List A → Rotated A
  rotate_rows step [] = record { written = 0; finished = true; rows = [] }
  rotate_rows step (r ∷ rs) = next_row (step r) r rs (rotate_rows step rs)

module _ (c : Codec) (old next : Box) (nonces : ℕ → ℕ → Text) where
  app_columns :
      AppSecrets → Option (Text × Bool) → Option (Text × Bool) → Option (Bool × AppSecrets)
  app_columns r none wh = none
  app_columns r (some pem) none = none
  app_columns r (some pem) (some wh) = some (
    not (pem.1 && wh.1),
    record {
      id = r.id;
      pem_enc = resealed c next (nonces r.id 0) r.pem_enc pem;
      webhook_secret_enc = resealed c next (nonces r.id 1) r.webhook_secret_enc wh;
    },
  )

  -- One round of the first loop: whether the row is written, and with what; `none` is an error.
  unfoldable pub rotate_app : AppSecrets → Option (Bool × AppSecrets)
  unfolding app_columns
  rotate_app r =
      app_columns r (reopen c old next r.pem_enc) (reopen c old next r.webhook_secret_enc)

  token_column : InstanceSecret → Option (Text × Bool) → Option (Bool × InstanceSecret)
  token_column r none = none
  token_column r (some tok) = some (
    not tok.1,
    record { id = r.id; api_token_enc = resealed c next (nonces r.id 2) r.api_token_enc tok },
  )

  -- One round of the second loop.
  unfoldable pub rotate_instance : InstanceSecret → Option (Bool × InstanceSecret)
  unfolding token_column
  rotate_instance r = token_column r (reopen c old next r.api_token_enc)

  abbrev after_apps :
      Rotated AppSecrets
      → Rotated InstanceSecret
      → List InstanceSecret
      → ℕ × Bool × List AppSecrets × List InstanceSecret
  after_apps a i instances =
      if a.finished
      then (a.written + i.written, i.finished, a.rows, i.rows)
      else (a.written, false, a.rows, instances)

  -- `RotateSecrets`: the count, whether no error stopped it, and both tables.
  unfoldable pub rotate_secrets :
      List AppSecrets → List InstanceSecret → ℕ × Bool × List AppSecrets × List InstanceSecret
  unfolding rotate_rows rotate_app rotate_instance
  rotate_secrets apps instances =
      after_apps (rotate_rows rotate_app apps) (rotate_rows rotate_instance instances) instances
