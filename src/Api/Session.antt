-- ===== src/Api/Session.antt =====
-- Who calls, in internal/api/server.go: the session of a cookie or a Bearer token, the guard of the
-- console and its CSRF check. A request shows the headers that these read.
pub mod Guard
use openpreflight.Prelude.{
  ℕ, Bool, true, false, not, ◌&&◌, Option, none, some, if◌then◌else◌, is_nil, [],
}
use openpreflight.Go.Strings.{Text, codes, str_eq, trim_space, has_prefix, trim_prefix}
use openpreflight.Store.Users.{Externals, User, Accounts, has_users, user_by_session}

-- A cookie that is absent is `none`; `csrf_field` is the form's, after ParseForm.
pub record WebRequest : Type 0 where
  pub method : Text
  pub session_cookie : Option Text
  pub csrf_cookie : Option Text
  pub authorization : Text
  pub csrf_header : Text
  pub csrf_field : Text
  pub json_surface : Bool

-- The value of a cookie, and "" of none.
abbrev pub cookie_value : Option Text → Text
cookie_value none = []
cookie_value (some v) = v

-- `isUnsafe`.
unfoldable pub is_unsafe : Text → Bool
is_unsafe method =
    not (str_eq method (codes "GET"))
    && (not (str_eq method (codes "HEAD")) && not (str_eq method (codes "OPTIONS")))

-- `csrfOK`, where the comparison's time plays no part.
unfoldable pub csrf_ok : WebRequest → Bool
csrf_ok r =
    let sent = (if is_nil r.csrf_header then r.csrf_field else r.csrf_header) in
    let kept = cookie_value r.csrf_cookie in
    not (is_nil kept) && (not (is_nil sent) && str_eq sent kept)

-- The Bearer token of a request.
abbrev pub bearer_token : WebRequest → Text
bearer_token r = trim_space (trim_prefix r.authorization (codes "Bearer "))

-- The user, and whether a cookie showed it.
abbrev pub Caller : Type 0
Caller = Option (User × Bool)

from_bearer : Option User × Accounts → Caller × Accounts
from_bearer (none, acc) = (none, acc)
from_bearer (some u, acc) = (some (u, false), acc)

unfoldable pub by_bearer : Externals → ℕ → WebRequest → Accounts → Caller × Accounts
unfolding from_bearer
by_bearer ext now r acc =
    if has_prefix r.authorization (codes "Bearer ")
    then from_bearer (user_by_session ext now (bearer_token r) acc)
    else (none, acc)

-- The cookie's user, or else the Bearer token's.
unfoldable pub after_cookie :
    Externals → ℕ → WebRequest → Option User × Accounts → Caller × Accounts
unfolding by_bearer
after_cookie ext now r (none, acc) = by_bearer ext now r acc
after_cookie ext now r (some u, acc) = (some (u, true), acc)

-- `authenticate`.
unfoldable pub authenticate : Externals → ℕ → WebRequest → Accounts → Caller × Accounts
unfolding after_cookie
authenticate ext now r acc =
    if is_nil (cookie_value r.session_cookie)
    then by_bearer ext now r acc
    else after_cookie ext now r (user_by_session ext now (cookie_value r.session_cookie) acc)

pub data GuardAnswer : Type 0 where
  precondition_required to_setup unauthorized to_login forbidden : GuardAnswer
  pass : User → GuardAnswer

guard_caller : WebRequest → Caller × Accounts → GuardAnswer × Accounts
guard_caller r (none, acc) = (if r.json_surface then unauthorized else to_login, acc)
guard_caller r (some (u, via_cookie), acc) =
    if via_cookie && (is_unsafe r.method && not (csrf_ok r))
    then (forbidden, acc)
    else (pass u, acc)

-- `guard`: the answer, or `pass` to the handler that it guards.
unfoldable pub guard : Externals → ℕ → WebRequest → Accounts → GuardAnswer × Accounts
unfolding guard_caller
guard ext now r acc =
    if not (has_users acc)
    then (if r.json_surface then precondition_required else to_setup, acc)
    else guard_caller r (authenticate ext now r acc)
