-- ===== src/Webhook/Signature.antt =====
-- internal/webhook/signature.go. The HMAC and the hex decoder are those of Go's library.
use openpreflight.Prelude.{Option, none, some, if◌then◌else◌, is_nil}
use openpreflight.Go.Strings.{Text, codes, str_eq, has_prefix, trim_prefix}

pub data SignatureError : Type 0 where
  no_secret bad_signature : SignatureError

module _ (hmac_sha256 : Text → Text → Text) (decode_hex : Text → Option Text) where
  check_sum : Text → Text → Option Text → Option SignatureError
  unfolding str_eq
  check_sum secret body none = some bad_signature
  check_sum secret body (some want) =
      if str_eq (hmac_sha256 secret body) want then none else some bad_signature

  -- `VerifySignature`: `none` is success.
  unfoldable pub verify_signature : Text → Text → Text → Option SignatureError
  unfolding check_sum has_prefix trim_prefix
  verify_signature secret body header =
      if is_nil secret
      then some no_secret
      else if has_prefix header (codes "sha256=")
      then check_sum secret body (decode_hex (trim_prefix header (codes "sha256=")))
      else some bad_signature
