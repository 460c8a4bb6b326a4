-- ===== src/Api/Auth.antt =====
-- internal/api/auth.go: the sign-in limiter, the client's address and the handlers of setup, sign-in,
-- sign-out and the password. Times are nanoseconds; of an answer its status is modelled, not its body.
pub mod Doors
pub mod Budget
use openpreflight.Prelude.{
  ℕ, suc, ◌+◌, ◌-◌, ◌/◌, Bool, true, false, not, ◌&&◌, ◌||◌, List, [], ◌∷◌, Option, none, some, leb,
  if◌then◌else◌, is_nil,
}
use openpreflight.Go.Strings.{Text, codes, str_eq, trim_space, trim_right, has_prefix, split}
use openpreflight.Store.Models.{Settings}
use openpreflight.Store.Users.{
  Externals, User, Accounts, Account, granted, refused, has_users, create_user, set_password,
  authenticate, create_session, delete_session,
}
use openpreflight.Api.Input.{Input, str}
use openpreflight.Api.Session.{WebRequest, cookie_value, bearer_token}

abbrev pub login_attempts_per_minute : ℕ
login_attempts_per_minute = 5

abbrev pub minute : ℕ
minute = 60000000000

-- The counts are `none` before the first attempt.
pub record LoginLimiter : Type 0 where
  pub start : ℕ
  pub counts : Option (List (Text × ℕ))

abbrev pub count_of : Text → List (Text × ℕ) → ℕ
count_of addr [] = 0
count_of addr ((a, n) ∷ rest) = if str_eq a addr then n else count_of addr rest

-- `l.count[addr]++`.
unfoldable pub increment : Text → List (Text × ℕ) → List (Text × ℕ)
increment addr [] = (addr, 1) ∷ []
increment addr ((a, n) ∷ rest) =
    if str_eq a addr then (a, n + 1) ∷ rest else (a, n) ∷ increment addr rest

-- The window that an attempt falls in.
in_window : ℕ → ℕ → Option (List (Text × ℕ)) → ℕ × List (Text × ℕ)
in_window now start none = (now, [])
in_window now start (some counts) = if leb minute (now - start) then (now, []) else (start, counts)

unfoldable pub window : ℕ → LoginLimiter → ℕ × List (Text × ℕ)
unfolding in_window
window now l = in_window now l.start l.counts

-- `allow`: whether the attempt is within the budget, how long until the window ends, and the limiter.
unfoldable pub allow : ℕ → Text → LoginLimiter → Bool × ℕ × LoginLimiter
unfolding window increment
allow now addr l =
    let w = window now l in
    let counts = increment addr w.1 in
    (
      leb (count_of addr counts) login_attempts_per_minute,
      w.0 + minute - now,
      record { start = w.0; counts = some counts },
    )

remove : Text → List (Text × ℕ) → List (Text × ℕ)
remove addr [] = []
remove addr ((a, n) ∷ rest) = if str_eq a addr then remove addr rest else (a, n) ∷ remove addr rest

abbrev removed : Text → Option (List (Text × ℕ)) → Option (List (Text × ℕ))
removed addr none = none
removed addr (some counts) = some (remove addr counts)

-- `clear`.
unfoldable pub clear : Text → LoginLimiter → LoginLimiter
unfolding remove
clear addr l = record l { counts = removed addr l.counts }

abbrev last_of : List Text → Text
last_of [] = []
last_of (s ∷ []) = s
last_of (s ∷ t ∷ rest) = last_of (t ∷ rest)

abbrev known_ip : Option Text → Text → Text
known_ip none fallback = fallback
known_ip (some ip) fallback = ip

-- `clientAddr`: `headers` are the values of the named header, `parse_ip` is net.ParseIP with its text,
-- `split_host` the host of net.SplitHostPort.
unfoldable pub client_addr :
    (Text → Option Text) → (Text → Option Text) → Text → List Text → Text → Text
client_addr parse_ip split_host header headers remote =
    let peer = known_ip (split_host remote) remote in
    if is_nil header || is_nil headers
    then peer
    else known_ip (parse_ip (trim_space (last_of (split b',' (last_of headers))))) peer

-- What the handlers share and change.
pub record Console : Type 0 where
  pub accounts : Accounts
  pub settings : Settings
  pub logins : LoginLimiter

pub data Answer : Type 0 where
  conflict bad_request forbidden unauthorized server_error created signed_out password_updated :
      Answer
  -- Retry-After, in seconds.
  too_many_requests : ℕ → Answer
  signed_in : User → Answer

-- The time, the id of a new row and the token that is drawn.
pub record Draw : Type 0 where
  pub now : ℕ
  pub id : ℕ
  pub token : Text

-- `setSession`, and what an error or a session answers.
unfoldable pub session_answer : Answer → Console → Account (ℕ × Accounts) → Answer × Console
session_answer answer c (refused e) = (server_error, c)
session_answer answer c (granted (expires, acc)) = (answer, record c { accounts = acc })

unfoldable pub set_session : Externals → Draw → ℕ → Answer → Console → Answer × Console
unfolding session_answer
set_session ext d user_id answer c =
    session_answer answer c (create_session ext d.now d.token user_id c.accounts)

with_base_url : Input → Settings → Settings
with_base_url inp s =
    let base = trim_right (λ c. leb c b'/' && leb b'/' c) (str (codes "public_base_url") inp) in
    if is_nil base then s else record s { public_base_url = base }

abbrev setup_username : Input → Text
setup_username inp =
    let name = str (codes "username") inp in if is_nil name then codes "admin" else name

created_admin : Externals → Draw → Input → Console → Account (User × Accounts) → Answer × Console
created_admin ext d inp c (refused e) = (bad_request, c)
created_admin ext d inp c (granted (u, acc)) =
    set_session ext d u.id created
      (record c { accounts = acc; settings = with_base_url inp c.settings })

setup_with : Externals → Text → Draw → Console → Option Input → Answer × Console
setup_with ext setup_token d c none = (bad_request, c)
setup_with ext setup_token d c (some inp) =
    if is_nil setup_token || not (str_eq (str (codes "setup_token") inp) setup_token)
    then (forbidden, c)
    else created_admin ext d inp c
        (create_user ext d.now d.id (setup_username inp) (str (codes "password") inp) c.accounts)

-- `handleSetup`; an input that cannot be read is `none`.
unfoldable pub handle_setup : Externals → Text → Draw → Option Input → Console → Answer × Console
unfolding setup_with created_admin set_session with_base_url
handle_setup ext setup_token d inp c =
    if has_users c.accounts then (conflict, c) else setup_with ext setup_token d c inp

sign_in_as : Externals → Draw → Text → Console → Option User → Answer × Console
sign_in_as ext d addr c none = (unauthorized, c)
sign_in_as ext d addr c (some u) =
    set_session ext d u.id (signed_in u) (record c { logins = clear addr c.logins })

try_sign_in : Externals → Draw → Text → Console → Option Input → Answer × Console
try_sign_in ext d addr c none = (bad_request, c)
try_sign_in ext d addr c (some inp) =
    sign_in_as ext d addr c
      (authenticate ext (str (codes "username") inp) (str (codes "password") inp) c.accounts)

within_budget :
    Externals → Draw → Text → Option Input → Console → Bool × ℕ × LoginLimiter → Answer × Console
within_budget ext d addr inp c (false, wait, l) =
    (too_many_requests (wait / 1000000000 + 1), record c { logins = l })
within_budget ext d addr inp c (true, wait, l) =
    try_sign_in ext d addr (record c { logins = l }) inp

-- `handleLogin`, of the client's address. Both surfaces create the session alike.
unfoldable pub handle_login : Externals → Draw → Text → Option Input → Console → Answer × Console
unfolding within_budget try_sign_in sign_in_as set_session
handle_login ext d addr inp c = within_budget ext d addr inp c (allow d.now addr c.logins)

abbrev without : Externals → Text → Accounts → Accounts
without ext token acc = if is_nil token then acc else delete_session ext token acc

-- `handleLogout`.
unfoldable pub handle_logout : Externals → WebRequest → Accounts → Accounts
handle_logout ext r acc =
    let acc' = without ext (cookie_value r.session_cookie) acc in
    if has_prefix r.authorization (codes "Bearer ") then without ext (bearer_token r) acc' else acc'

replaced : Externals → Draw → User → Console → Account Accounts → Answer × Console
replaced ext d u c (refused e) = (bad_request, c)
replaced ext d u c (granted acc) =
    set_session ext d u.id password_updated (record c { accounts = acc })

change_with : Externals → Draw → User → Console → Option Input → Answer × Console
change_with ext d u c none = (bad_request, c)
change_with ext d u c (some inp) =
    replaced ext d u c (set_password ext u.id (str (codes "password") inp) c.accounts)

-- `changePassword`.
unfoldable pub change_password : Externals → Draw → User → Option Input → Console → Answer × Console
unfolding change_with replaced set_session
change_password ext d u inp c = change_with ext d u c inp
