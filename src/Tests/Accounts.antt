-- ===== src/Tests/Accounts.antt =====
-- Sign-ins, sessions and the guard of the console on two users.
use openpreflight.Prelude.{
  ℕ, ◌+◌, ◌*◌, ◌≤◌, ◌≡◌, ◌≢◌, refl, inl, Bool, true, false, List, [], ◌∷◌, none, some, arith,
}
use openpreflight.Go.Strings.{Text, codes, str_eq}
use openpreflight.Store.Settings.{default_settings}
use openpreflight.Store.Users.{
  Externals, User, Session, Accounts, granted, has_token, hash_token, session_idle_ttl,
  session_max_ttl, create_session, set_password, user_by_session, delete_session,
}
use openpreflight.Store.Users.Sessions.{request, sign_in, apply_calls}
use openpreflight.Store.Users.Expiry.{session_ends, set_password-revokes}
use openpreflight.Store.Users.Renewal.{user_by_session-renews}
use openpreflight.Api.Input.{Input, form}
use openpreflight.Api.Session.{WebRequest, guard, pass}
use openpreflight.Api.Session.Guard.{Identified, Confirmed, guard-pass}
use openpreflight.Api.Auth.{
  LoginLimiter, Console, Draw, handle_setup, handle_logout, allow, login_attempts_per_minute,
}
use openpreflight.Api.Auth.Budget.{LoginEvent, attempt, passed, passed_bound}
use openpreflight.Api.Auth.Doors.{MaySetUp, handle_setup-MaySetUp, handle_logout-ends}

abbrev read_clock : Text → ℕ
read_clock [] = 0
read_clock (n ∷ t) = n

-- A hash that is the text itself, and a time column of one character.
abbrev plain_externals : Externals
plain_externals = record {
  hash_password = λ pw. some pw;
  password_matches = str_eq;
  sha256_hex = λ t. t;
  time_text = λ n. n ∷ [];
  time_of = read_clock;
}

abbrev admin : User
admin = record {
  id = 1;
  username = codes "admin";
  password_hash = codes "correct horse battery";
  created_at = 0 ∷ [];
}

abbrev admin_at : ℕ → User
admin_at now = record admin { created_at = now ∷ [] }

abbrev signed_out : Accounts
signed_out = record { users = admin ∷ []; sessions = [] }

abbrev session : Session
session = record {
  token = codes "tok";
  user_id = 1;
  created_at = 5 ∷ [];
  expires_at = (5 + session_idle_ttl) ∷ [];
}

abbrev with_session : Accounts
with_session = record { users = admin ∷ []; sessions = session ∷ [] }

signs_in :
    create_session plain_externals 5 (codes "tok") 1 signed_out
    ≡ granted (5 + session_idle_ttl, with_session)
unfolding create_session
signs_in = refl

session_ends_example :
    (user_by_session plain_externals (6 + session_max_ttl) (codes "tok") (
      apply_calls plain_externals
        (request 7 (codes "tok") ∷ sign_in 8 (codes "two") 1 ∷ [])
        with_session)).0
    ≡ none
unfolding str_eq
session_ends_example =
    session_ends plain_externals 5 (codes "tok") 1 signed_out with_session (5 + session_idle_ttl)
      (request 7 (codes "tok") ∷ sign_in 8 (codes "two") 1 ∷ []) (6 + session_max_ttl) (λ t. refl)
      signs_in (tt, (refl, tt)) (omega arith)

abbrev new_password : Text
new_password = codes "another password"

abbrev after_change : Accounts
after_change = record {
  users =
      record { id = 1; username = codes "admin"; password_hash = new_password; created_at = 0 ∷ [] }
      ∷ [];
  sessions = [];
}

changes : set_password plain_externals 1 new_password with_session ≡ granted after_change
unfolding set_password
changes = refl

set_password-revokes_example :
    (user_by_session plain_externals 9
      (codes "tok")
      (apply_calls plain_externals (sign_in 8 (codes "two") 1 ∷ []) after_change)).0
    ≡ none
unfolding str_eq
set_password-revokes_example =
    set_password-revokes plain_externals 1 new_password (codes "tok") with_session after_change
      (sign_in 8 (codes "two") 1 ∷ []) 9 changes ((λ e. refl), tt) (refl, tt)

abbrev shown_admin : User
shown_admin = record { id = 1; username = codes "admin"; password_hash = []; created_at = 0 ∷ [] }

accepts : (user_by_session plain_externals 20 (codes "tok") with_session).0 ≡ some shown_admin
unfolding user_by_session str_eq
accepts = refl

user_by_session-renews_example :
    (user_by_session plain_externals 43200000000000
      (codes "tok")
      (user_by_session plain_externals 20 (codes "tok") with_session).1).0
    ≡ some shown_admin
unfolding str_eq
user_by_session-renews_example =
    user_by_session-renews plain_externals 20 43200000000000 (codes "tok") with_session shown_admin
      session (λ t. refl) refl accepts (omega arith) (omega arith)

abbrev posted : WebRequest
posted = record {
  method = codes "POST";
  session_cookie = some (codes "tok");
  csrf_cookie = some (codes "c5");
  authorization = [];
  csrf_header = [];
  csrf_field = codes "c5";
  json_surface = false;
}

passes : (guard plain_externals 20 posted with_session).0 ≡ pass shown_admin
unfolding guard openpreflight.Store.Users.has_users openpreflight.Api.Session.authenticate
    user_by_session str_eq openpreflight.Api.Session.is_unsafe openpreflight.Api.Session.csrf_ok
passes = refl

guard-pass_example :
    (with_session.users ≢ [])
    × (via : Bool) × Identified plain_externals 20 posted with_session shown_admin via
    × (via ≡ true → Confirmed posted)
guard-pass_example = guard-pass plain_externals 20 posted with_session shown_admin passes

abbrev quiet : LoginLimiter
quiet = record { start = 0; counts = none }

abbrev guesses : List LoginEvent
guesses =
    attempt 1 (codes "h")
    ∷ attempt 2 (codes "h")
    ∷ attempt 3 (codes "h")
    ∷ attempt 4 (codes "h")
    ∷ attempt 5 (codes "h")
    ∷ attempt 6 (codes "h")
    ∷ []

passed_bound_example : passed (codes "h") guesses quiet ≤ 2 * login_attempts_per_minute
passed_bound_example = passed_bound (codes "h") 1 guesses quiet (omega arith)

passed_five : passed (codes "h") guesses quiet ≡ 5
unfolding passed allow str_eq
passed_five = refl

abbrev wizard : Input
wizard = form (
    (codes "setup_token", codes "sesame" ∷ [])
    ∷ (codes "password", codes "correct horse battery" ∷ [])
    ∷ [])

abbrev empty_console : Console
empty_console = record {
  accounts = record { users = []; sessions = [] };
  settings = default_settings;
  logins = quiet;
}

abbrev draw : Draw
draw = record { now = 5; id = 1; token = codes "tok" }

sets_up_admin :
    (handle_setup plain_externals
      (codes "sesame")
      draw
      (some wizard)
      empty_console).1.accounts.users
    ≡ admin_at 5 ∷ []
unfolding handle_setup openpreflight.Store.Users.has_users str_eq openpreflight.Api.Input.str
    openpreflight.Go.Strings.trim_space openpreflight.Store.Users.create_user create_session
sets_up_admin = refl

sets_up :
    (handle_setup plain_externals
      (codes "sesame")
      draw
      (some wizard)
      empty_console).1.accounts.users
    ≢ []
sets_up e = cc (sets_up_admin, e)

handle_setup-MaySetUp_example : MaySetUp (codes "sesame") (some wizard) empty_console
handle_setup-MaySetUp_example =
    handle_setup-MaySetUp plain_externals (codes "sesame") draw (some wizard) empty_console sets_up

handle_logout-ends_example :
    (user_by_session plain_externals 30 (codes "tok") (
      apply_calls plain_externals
        (sign_in 8 (codes "two") 1 ∷ [])
        (handle_logout plain_externals posted with_session))).0
    ≡ none
unfolding str_eq
handle_logout-ends_example =
    handle_logout-ends plain_externals posted (codes "tok") with_session
      (sign_in 8 (codes "two") 1 ∷ []) 30 ((λ e. cc), inl refl) (refl, tt)
