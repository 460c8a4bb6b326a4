-- ===== src/Store/Rotate/Resealing.antt =====
-- What the rotation of internal/store/rotate.go does to the columns, also when an error stops it.
use openpreflight.Prelude.{
  ℕ, ◌≡◌, refl, ap, ◌∙◌, Bool, true, false, Bool-cases, not, ◌&&◌, inl, inr, List, [], ◌∷◌, Option,
  none, some, arith, length, All,
}
use openpreflight.Go.Strings.{Text}
use openpreflight.Secret.{Codec, Box, seal, open_sealed, plain}
use openpreflight.Secret.Boxes.{IsSound, open_sealed-seal}
use openpreflight.Store.Rotate.{
  AppSecrets, InstanceSecret, reopened, reopen, resealed, next_row, rotate_rows, rotate_app,
  app_columns, rotate_instance, token_column, rotate_secrets,
}

-- Two tables with rows that are related one by one.
abbrev pub All2 {ℓ} : {A : Type ℓ} → (A → A → Type 0) → List A → List A → Type 0
All2 R [] [] = Unit
All2 R [] (y ∷ ys) = ⊥
All2 R (x ∷ xs) [] = ⊥
All2 R (x ∷ xs) (y ∷ ys) = R x y × All2 R xs ys

All2-refl {ℓ} : {A : Type ℓ} (R : A → A → Type 0) (xs : List A) → ((x : A) → R x x) → All2 R xs xs
All2-refl R [] h = tt
All2-refl R (x ∷ xs) h = (h x, All2-refl R xs h)

module _ {A : Type 0} (step : A → Option (Bool × A)) (R : A → A → Type 0) (Q : A → Type 0) where
  rotate_rows-All2 :
      (rs : List A)
      → ((r : A) → R r r)
      → ((r r' : A) → step r ≡ some (true, r') → R r r')
      → All2 R rs (rotate_rows step rs).rows
  unfolding rotate_rows
  rotate_rows-All2 [] same new = tt
  rotate_rows-All2 (r ∷ rs) same new = go (step r) refl (rotate_rows-All2 rs same new)
    where
      go :
          (o : Option (Bool × A))
          → step r ≡ o
          → All2 R rs (rotate_rows step rs).rows
          → All2 R (r ∷ rs) (next_row o r rs (rotate_rows step rs)).rows
      go none e ih = (same r, All2-refl R rs same)
      go (some (true, r')) e ih = (new r r' e, ih)
      go (some (false, r')) e ih = (same r, ih)

  rotate_rows-All :
      (rs : List A)
      → ((r r' : A) → step r ≡ some (true, r') → Q r')
      → ((r r' : A) → step r ≡ some (false, r') → Q r)
      → (rotate_rows step rs).finished ≡ true
      → All Q (rotate_rows step rs).rows
  unfolding rotate_rows
  rotate_rows-All [] new same h = tt
  rotate_rows-All (r ∷ rs) new same h = go (step r) refl h (rotate_rows-All rs new same)
    where
      go :
          (o : Option (Bool × A))
          → step r ≡ o
          → (next_row o r rs (rotate_rows step rs)).finished ≡ true
          → ((rotate_rows step rs).finished ≡ true → All Q (rotate_rows step rs).rows)
          → All Q (next_row o r rs (rotate_rows step rs)).rows
      go none e h ih = absurd (cc)
      go (some (true, r')) e h ih = (new r r' e, ih h)
      go (some (false, r')) e h ih = (same r r' e, ih h)

module _ (c : Codec) (old next : Box) (nonces : ℕ → ℕ → Text) (sound : IsSound c next)
    (drawn : (id column : ℕ) → length (nonces id column) ≡ next.nonce_size) where
  -- The new key opens the column.
  abbrev pub Fresh : Text → Text → Type 0
  Fresh plaintext sealed = reopen c old next sealed ≡ some (plaintext, true)

  seal-Fresh :
      (nonce plaintext : Text)
      → length nonce ≡ next.nonce_size
      → Fresh plaintext (seal c next nonce plaintext)
  unfolding reopen seal
  seal-Fresh nonce [] size = refl
  seal-Fresh nonce (x ∷ s) size =
      let e : open_sealed c next (seal c next nonce (x ∷ s)) ≡ plain (x ∷ s) =
        open_sealed-seal c next nonce (x ∷ s) sound size in
      rw e (unfold reopened in refl)

  resealed-Fresh :
      (nonce enc plaintext : Text) (already : Bool)
      → length nonce ≡ next.nonce_size
      → reopen c old next enc ≡ some (plaintext, already)
      → Fresh plaintext (resealed c next nonce enc (plaintext, already))
  resealed-Fresh nonce enc plaintext true size h = h
  resealed-Fresh nonce enc plaintext false size h = seal-Fresh nonce plaintext size

  -- A column still opens, to what it opened to.
  abbrev pub Keeps : Text → Text → Type 0
  Keeps enc enc' =
      (plaintext : Text) (already : Bool)
      → reopen c old next enc ≡ some (plaintext, already)
      → (already' : Bool) × (reopen c old next enc' ≡ some (plaintext, already'))

  abbrev pub KeepsApp : AppSecrets → AppSecrets → Type 0
  KeepsApp r r' =
      (r'.id ≡ r.id) × Keeps r.pem_enc r'.pem_enc × Keeps r.webhook_secret_enc r'.webhook_secret_enc

  abbrev pub KeepsToken : InstanceSecret → InstanceSecret → Type 0
  KeepsToken r r' = (r'.id ≡ r.id) × Keeps r.api_token_enc r'.api_token_enc

  abbrev pub FreshApp : AppSecrets → Type 0
  FreshApp r = ((pem : Text) × Fresh pem r.pem_enc) × (wh : Text) × Fresh wh r.webhook_secret_enc

  abbrev pub FreshToken : InstanceSecret → Type 0
  FreshToken r = (token : Text) × Fresh token r.api_token_enc

  resealed-Keeps :
      (nonce enc : Text) (p : Text × Bool)
      → length nonce ≡ next.nonce_size
      → reopen c old next enc ≡ some p
      → Keeps enc (resealed c next nonce enc p)
  resealed-Keeps nonce enc (pt, a) size h plaintext already k =
      let same : pt ≡ plaintext = cc in (true, rw (← same) (resealed-Fresh nonce enc pt a size h))

  app_columns-some :
      (r r' : AppSecrets) (b : Bool) (p w : Option (Text × Bool))
      → reopen c old next r.pem_enc ≡ p
      → reopen c old next r.webhook_secret_enc ≡ w
      → app_columns c old next nonces r p w ≡ some (b, r')
      → KeepsApp r r' × FreshApp r' × (b ≡ false → FreshApp r)
  unfolding app_columns
  app_columns-some r r' b none w hp hw h = absurd (cc)
  app_columns-some r r' b (some pem) none hp hw h = absurd (cc)
  app_columns-some r r' b (some (pem, pn)) (some (wh, wn)) hp hw h =
      let pem' = resealed c next (nonces r.id 0) r.pem_enc (pem, pn) in
      let wh' = resealed c next (nonces r.id 1) r.webhook_secret_enc (wh, wn) in
      let both : AppSecrets = record { id = r.id; pem_enc = pem'; webhook_secret_enc = wh' } in
      let same : r' ≡ both = cc in
      let flag : b ≡ not (pn && wn) = cc in
      rw same (
        (
          refl,
          resealed-Keeps (nonces r.id 0) r.pem_enc (pem, pn) (drawn r.id 0) hp,
          resealed-Keeps (nonces r.id 1) r.webhook_secret_enc (wh, wn) (drawn r.id 1) hw,
        ),
        (
          (pem, resealed-Fresh (nonces r.id 0) r.pem_enc pem pn (drawn r.id 0) hp),
          wh,
          resealed-Fresh (nonces r.id 1) r.webhook_secret_enc wh wn (drawn r.id 1) hw,
        ),
        (λ q.
            let pn_true : pn ≡ true = ground arith in
            let wn_true : wn ≡ true = ground arith in
            (
              (pem, hp ∙ ap (λ (x : Bool). some (pem, x)) pn_true),
              wh,
              hw ∙ ap (λ (x : Bool). some (wh, x)) wn_true,
            )),
      )

  rotate_app-some :
      (r r' : AppSecrets) (b : Bool)
      → rotate_app c old next nonces r ≡ some (b, r')
      → KeepsApp r r' × FreshApp r' × (b ≡ false → FreshApp r)
  unfolding rotate_app
  rotate_app-some r r' b h = app_columns-some r r' b _ _ refl refl h

  token_column-some :
      (r r' : InstanceSecret) (b : Bool) (p : Option (Text × Bool))
      → reopen c old next r.api_token_enc ≡ p
      → token_column c old next nonces r p ≡ some (b, r')
      → KeepsToken r r' × FreshToken r' × (b ≡ false → FreshToken r)
  unfolding token_column
  token_column-some r r' b none hp h = absurd (cc)
  token_column-some r r' b (some (tok, done)) hp h =
      let tok' = resealed c next (nonces r.id 2) r.api_token_enc (tok, done) in
      let both : InstanceSecret = record { id = r.id; api_token_enc = tok' } in
      let same : r' ≡ both = cc in
      let flag : b ≡ not done = cc in
      rw same (
        (refl, resealed-Keeps (nonces r.id 2) r.api_token_enc (tok, done) (drawn r.id 2) hp),
        (tok, resealed-Fresh (nonces r.id 2) r.api_token_enc tok done (drawn r.id 2) hp),
        (λ q.
            let done_true : done ≡ true = ground arith in
            (tok, hp ∙ ap (λ (x : Bool). some (tok, x)) done_true)),
      )

  rotate_instance-some :
      (r r' : InstanceSecret) (b : Bool)
      → rotate_instance c old next nonces r ≡ some (b, r')
      → KeepsToken r r' × FreshToken r' × (b ≡ false → FreshToken r)
  unfolding rotate_instance
  rotate_instance-some r r' b h = token_column-some r r' b _ refl h

  same_column : (enc : Text) → Keeps enc enc
  same_column enc plaintext already h = (already, h)

  rotated_apps :
      (apps : List AppSecrets)
      → All2 KeepsApp apps (rotate_rows (rotate_app c old next nonces) apps).rows
  rotated_apps apps =
      rotate_rows-All2 (rotate_app c old next nonces) KeepsApp (λ r. Unit) apps
        (λ r. (refl, same_column r.pem_enc, same_column r.webhook_secret_enc))
        (λ r r' e. (rotate_app-some r r' true e).0)

  rotated_tokens :
      (instances : List InstanceSecret)
      → All2 KeepsToken instances (rotate_rows (rotate_instance c old next nonces) instances).rows
  rotated_tokens instances =
      rotate_rows-All2 (rotate_instance c old next nonces) KeepsToken (λ r. Unit) instances
        (λ r. (refl, same_column r.api_token_enc)) (λ r r' e. (rotate_instance-some r r' true e).0)

  fresh_apps :
      (apps : List AppSecrets)
      → (rotate_rows (rotate_app c old next nonces) apps).finished ≡ true
      → All FreshApp (rotate_rows (rotate_app c old next nonces) apps).rows
  fresh_apps apps h =
      rotate_rows-All (rotate_app c old next nonces) (λ r s. Unit) FreshApp apps
        (λ r r' e. (rotate_app-some r r' true e).1)
        (λ r r' e. (rotate_app-some r r' false e).2 refl) h

  fresh_tokens :
      (instances : List InstanceSecret)
      → (rotate_rows (rotate_instance c old next nonces) instances).finished ≡ true
      → All FreshToken (rotate_rows (rotate_instance c old next nonces) instances).rows
  fresh_tokens instances h =
      rotate_rows-All (rotate_instance c old next nonces) (λ r s. Unit) FreshToken instances
        (λ r r' e. (rotate_instance-some r r' true e).1)
        (λ r r' e. (rotate_instance-some r r' false e).2 refl) h

  -- A rotation, also one that an error stops, leaves every column that one of both keys opened
  -- readable with its plaintext; if no error stops it, the new key alone opens every column.
  pub rotate_secrets-Keeps :
      (apps : List AppSecrets) (instances : List InstanceSecret)
      → let r = rotate_secrets c old next nonces apps instances in
        All2 KeepsApp apps r.2
        × All2 KeepsToken instances r.3
        × (r.1 ≡ true → All FreshApp r.2 × All FreshToken r.3)
  unfolding rotate_secrets
  rotate_secrets-Keeps apps instances =
      elim (Bool-cases (rotate_rows (rotate_app c old next nonces) apps).finished) [
        | inl e ↦ rw e (
          rotated_apps apps,
          rotated_tokens instances,
          (λ h. (fresh_apps apps e, fresh_tokens instances h)),
        )
        | inr e ↦ rw e (
          rotated_apps apps,
          All2-refl KeepsToken instances (λ r. (refl, same_column r.api_token_enc)),
          (λ h. absurd (cc)),
        )
      ]
