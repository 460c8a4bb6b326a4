-- ===== src/Secret/Boxes.antt =====
-- Sealing and opening are inverse, and a redacted secret shows its first bytes and its length only.
use openpreflight.Prelude.{
  ◌≡◌, refl, ap, ◌∙◌, List, [], ◌∷◌, ◌++◌, some, arith, leb, length, take, drop, length-append,
  is_nil,
}
use openpreflight.Go.Strings.{Text, has_prefix, trim_prefix}
use openpreflight.Secret.{
  Codec, Box, prefix, seal, open_sealed, open_bytes, open_raw, plain, redact,
}

-- base64 and AES-GCM invert what they made.
pub record IsSound (c : Codec) (b : Box) : Type 0 where
  pub decoded : (s : Text) → c.decode (c.encode s) ≡ some s
  pub unsealed :
      (nonce plaintext : Text)
      → length nonce ≡ b.nonce_size
      → b.aead_open nonce (b.aead_seal nonce plaintext) ≡ some plaintext

take-append {ℓ} : {A : Type ℓ} (xs ys : List A) → take (length xs) (xs ++ ys) ≡ xs
take-append [] ys = refl
take-append (x ∷ xs) ys = ap (λ r. x ∷ r) (take-append xs ys)

drop-append {ℓ} : {A : Type ℓ} (xs ys : List A) → drop (length xs) (xs ++ ys) ≡ ys
drop-append [] ys = refl
drop-append (x ∷ xs) ys = drop-append xs ys

open_prefixed :
    (c : Codec) (b : Box) (e : Text) → open_sealed c b (prefix ++ e) ≡ open_bytes b (c.decode e)
unfolding open_sealed has_prefix trim_prefix
open_prefixed c b e = refl

open_own_bytes :
    (b : Box) (nonce ct : Text)
    → length nonce ≡ b.nonce_size
    → open_bytes b (some (nonce ++ ct)) ≡ open_raw b (b.aead_open nonce ct)
unfolding open_bytes
open_own_bytes b nonce ct size =
    rw (← size) (ground (arith, length-append nonce ct, take-append nonce ct, drop-append nonce ct))

-- What is sealed opens, under the same key, to what it was.
pub open_sealed-seal :
    (c : Codec) (b : Box) (nonce plaintext : Text)
    → IsSound c b
    → length nonce ≡ b.nonce_size
    → open_sealed c b (seal c b nonce plaintext) ≡ plain plaintext
unfolding seal open_raw
open_sealed-seal c b nonce [] sound size = unfold open_sealed in refl
open_sealed-seal c b nonce (x ∷ s) sound size =
    open_prefixed c b (c.encode (nonce ++ b.aead_seal nonce (x ∷ s)))
    ∙ ap (open_bytes b) (sound.decoded (nonce ++ b.aead_seal nonce (x ∷ s)))
    ∙ open_own_bytes b nonce (b.aead_seal nonce (x ∷ s)) size
    ∙ ap (open_raw b) (sound.unsealed nonce (x ∷ s) size)

is_nil-length {ℓ} : {A : Type ℓ} (xs : List A) → is_nil xs ≡ leb (length xs) 0
is_nil-length [] = refl
is_nil-length (x ∷ xs) = ground arith

-- What a GET shows of a secret depends on its first four bytes and its length alone.
pub redact_hides : (s t : Text) → length s ≡ length t → take 4 s ≡ take 4 t → redact s ≡ redact t
unfolding redact
redact_hides s t h k = rw (is_nil-length s, is_nil-length t, h, k) refl
