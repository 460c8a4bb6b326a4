-- ===== src/Tests/Secrets.antt =====
-- Key rotation on one App and one instance: a cipher that marks what a key sealed.
use openpreflight.Prelude.{
  ℕ, ◌≡◌, refl, true, List, [], ◌∷◌, ◌++◌, Option, none, some, if◌then◌else◌, ◌==◌, All,
}
use openpreflight.Go.Strings.{Text, codes}
use openpreflight.Secret.{Codec, Box}
use openpreflight.Secret.Boxes.{IsSound}
use openpreflight.Store.Rotate.{AppSecrets, InstanceSecret, rotate_secrets}
use openpreflight.Store.Rotate.Resealing.{
  All2, KeepsApp, KeepsToken, FreshApp, FreshToken, rotate_secrets-Keeps,
}

abbrev plain_codec : Codec
plain_codec = record { encode = λ s. s; decode = λ s. some s }

abbrev marked : ℕ → Text → Option Text
marked key [] = none
marked key (c ∷ s) = if c == key then some s else none

abbrev box : ℕ → Box
box key = record {
  nonce_size = 1;
  aead_seal = λ nonce s. key ∷ s;
  aead_open = λ nonce s. marked key s;
}

box-IsSound : IsSound plain_codec (box 50)
box-IsSound = record { decoded = λ s. refl; unsealed = λ nonce s size. refl }

abbrev drawn_nonces : ℕ → ℕ → Text
drawn_nonces id column = 7 ∷ []

-- The first column is sealed with the old key, the second already with the new one.
abbrev apps : List AppSecrets
apps =
    record {
      id = 1;
      pem_enc = codes "v1:" ++ 0 ∷ 49 ∷ 9 ∷ [];
      webhook_secret_enc = codes "v1:" ++ 0 ∷ 50 ∷ 8 ∷ [];
    }
    ∷ []

abbrev instances : List InstanceSecret
instances = record { id = 1; api_token_enc = codes "v1:" ++ 0 ∷ 49 ∷ 6 ∷ [] } ∷ []

rotates : rotate_secrets plain_codec (box 49) (box 50) drawn_nonces apps instances ≡ (
  2,
  true,
  record {
    id = 1;
    pem_enc = codes "v1:" ++ 7 ∷ 50 ∷ 9 ∷ [];
    webhook_secret_enc = codes "v1:" ++ 0 ∷ 50 ∷ 8 ∷ [];
  }
      ∷ [],
  record { id = 1; api_token_enc = codes "v1:" ++ 7 ∷ 50 ∷ 6 ∷ [] } ∷ [],
)
unfolding rotate_secrets openpreflight.Store.Rotate.reopen openpreflight.Secret.open_sealed
    openpreflight.Go.Strings.has_prefix openpreflight.Go.Strings.trim_prefix
    openpreflight.Secret.open_raw openpreflight.Secret.seal
rotates = refl

rotate_secrets-Keeps_example :
    let r = rotate_secrets plain_codec (box 49) (box 50) drawn_nonces apps instances in
    All2
      (KeepsApp plain_codec (box 49) (box 50) drawn_nonces box-IsSound (λ id column. refl))
      apps
      r.2
    × All2
        (KeepsToken plain_codec (box 49) (box 50) drawn_nonces box-IsSound (λ id column. refl))
        instances
        r.3
    × (r.1 ≡ true
        → All
            (FreshApp plain_codec (box 49) (box 50) drawn_nonces box-IsSound (λ id column. refl))
            r.2
          × All
              (FreshToken plain_codec
                (box 49)
                (box 50)
                drawn_nonces
                box-IsSound
                (λ id column. refl))
              r.3)
rotate_secrets-Keeps_example =
    rotate_secrets-Keeps plain_codec (box 49) (box 50) drawn_nonces box-IsSound (λ id column. refl)
      apps instances
