-- ===== src/Store/Rotate/Again.antt =====
-- A second rotation, after a restart with both keys still set, as internal/store/rotate.go promises.
use openpreflight.Prelude.{
  ℕ, ◌≡◌, refl, Bool, true, false, List, [], ◌∷◌, Option, some, length, All,
}
use openpreflight.Go.Strings.{Text}
use openpreflight.Secret.{Codec, Box}
use openpreflight.Secret.Boxes.{IsSound}
use openpreflight.Store.Rotate.{
  AppSecrets, InstanceSecret, rotate_rows, rotate_app, app_columns, rotate_instance, token_column,
  rotate_secrets,
}
use openpreflight.Store.Rotate.Resealing.{FreshApp, FreshToken, rotate_secrets-Keeps}

-- Where no row wants to be written, the loop writes none.
rotate_rows-idle :
    {A : Type 0} (step : A → Option (Bool × A)) (rs : List A)
    → All (λ r. (r' : A) × (step r ≡ some (false, r'))) rs
    → rotate_rows step rs ≡ record { written = 0; finished = true; rows = rs }
unfolding rotate_rows
rotate_rows-idle step [] h = refl
rotate_rows-idle step (r ∷ rs) ((r', e), hs) = rw (e, rotate_rows-idle step rs hs) refl

module _ (c : Codec) (old next : Box) (nonces nonces' : ℕ → ℕ → Text) (sound : IsSound c next)
    (drawn : (id column : ℕ) → length (nonces id column) ≡ next.nonce_size) where
  idle_app :
      (r : AppSecrets)
      → FreshApp c old next nonces sound drawn r
      → (r' : AppSecrets) × (rotate_app c old next nonces' r ≡ some (false, r'))
  unfolding rotate_app app_columns
  idle_app r ((pem, hp), wh, hw) = (r, rw (hp, hw) refl)

  idle_apps :
      (apps : List AppSecrets)
      → All (FreshApp c old next nonces sound drawn) apps
      → All (λ r. (r' : AppSecrets) × (rotate_app c old next nonces' r ≡ some (false, r'))) apps
  idle_apps [] h = tt
  idle_apps (r ∷ rs) (h, hs) = (idle_app r h, idle_apps rs hs)

  idle_tokens :
      (instances : List InstanceSecret)
      → All (FreshToken c old next nonces sound drawn) instances
      → All
          (λ r. (r' : InstanceSecret) × (rotate_instance c old next nonces' r ≡ some (false, r')))
          instances
  unfolding rotate_instance token_column
  idle_tokens [] h = tt
  idle_tokens (r ∷ rs) ((token, h), hs) = ((r, rw h refl), idle_tokens rs hs)

  -- Once a rotation has ended without an error, another one writes no row: a restart that still has
  -- the old key set changes nothing.
  pub rotate_secrets-rotate_secrets :
      (apps : List AppSecrets) (instances : List InstanceSecret)
      → (rotate_secrets c old next nonces apps instances).1 ≡ true
      → let r = rotate_secrets c old next nonces apps instances in
        rotate_secrets c old next nonces' r.2 r.3 ≡ (0, true, r.2, r.3)
  unfolding rotate_secrets
  rotate_secrets-rotate_secrets apps instances h =
      let r = rotate_secrets c old next nonces apps instances in
      let fresh = (rotate_secrets-Keeps c old next nonces sound drawn apps instances).2 h in
      rw
        (
          rotate_rows-idle (rotate_app c old next nonces') r.2 (idle_apps r.2 fresh.0),
          rotate_rows-idle (rotate_instance c old next nonces') r.3 (idle_tokens r.3 fresh.1),
        )
        refl
