-- ===== src/Secret.antt =====
-- internal/secret/secret.go: sealing and opening a column, and what a GET shows of it. Texts are bytes here.
-- AES-GCM under the derived key and base64 are parameters, the drawn nonce an argument.
pub mod Boxes
use openpreflight.Prelude.{
  ℕ, Bool, not, List, [], ◌∷◌, ◌++◌, Option, none, some, ltb, leb, if◌then◌else◌, length, take,
  drop, is_nil,
}
use openpreflight.Go.Strings.{Text, codes, has_prefix, trim_prefix, trim_space}
use openpreflight.Go.Decimal.{itoa}

-- base64.StdEncoding.
pub record Codec : Type 0 where
  pub encode : Text → Text
  pub decode : Text → Option Text

-- cipher.AEAD: the nonce first, then what is sealed or opened.
pub record Box : Type 0 where
  pub nonce_size : ℕ
  pub aead_seal : Text → Text → Text
  pub aead_open : Text → Text → Option Text

abbrev pub prefix : Text
prefix = codes "v1:"

-- `New`, up to the key's derivation; `none` is its error.
unfoldable pub new_box : (Text → Box) → Text → Option Box
new_box derive raw_key = if is_nil (trim_space raw_key) then none else some (derive raw_key)

-- `Seal`, with the nonce that is drawn.
unfoldable pub seal : Codec → Box → Text → Text → Text
seal c b nonce plaintext =
    if is_nil plaintext then [] else prefix ++ c.encode (nonce ++ b.aead_seal nonce plaintext)

pub data Opened : Type 0 where
  not_sealed not_base64 too_short wrong_key : Opened
  plain : Text → Opened

unfoldable pub open_raw : Box → Option Text → Opened
open_raw b none = wrong_key
open_raw b (some plaintext) = plain plaintext

unfoldable pub open_bytes : Box → Option Text → Opened
open_bytes b none = not_base64
open_bytes b (some raw) =
    if ltb (length raw) b.nonce_size
    then too_short
    else open_raw b (b.aead_open (take b.nonce_size raw) (drop b.nonce_size raw))

-- `Open`.
unfoldable pub open_sealed : Codec → Box → Text → Opened
unfolding open_bytes
open_sealed c b sealed =
    if is_nil sealed
    then plain []
    else if not (has_prefix sealed prefix)
    then not_sealed
    else open_bytes b (c.decode (trim_prefix sealed prefix))

-- The bytes of "…".
abbrev ellipsis : Text
ellipsis = 0xE2 ∷ 0x80 ∷ 0xA6 ∷ []

-- `Redact`.
unfoldable pub redact : Text → Text
redact plaintext =
    if is_nil plaintext
    then []
    else if leb (length plaintext) 8
    then ellipsis
    else take 4 plaintext
      ++ (ellipsis ++ (codes "(" ++ (itoa (length plaintext) ++ codes " bytes)")))
