-- ===== src/Store/Users.antt =====
-- internal/store/users.go: the admins, their passwords and their sessions. A time is its nanoseconds
-- since Go's zero time, and a text its bytes. bcrypt, SHA-256 and the layout of a timestamp are the fields of
-- `Externals`; the clock, the drawn token and the new row's id are arguments.

pub mod Renewal
pub mod Expiry
pub mod Sessions
use openpreflight.Prelude.{
  ℕ, ◌+◌, ◌-◌, ◌/◌, Bool, true, false, not, ◌||◌, List, [], ◌∷◌, ◌++◌, map, Option, none, some, ltb,
  ◌==◌, if◌then◌else◌, length, is_nil, any, filter, find?,
}
use openpreflight.Go.Strings.{Text, str_eq, trim_space}
use openpreflight.Store.Jobs.{text_ltb}

pub record Externals : Type 0 where
  pub hash_password : Text → Option Text
  pub password_matches : Text → Text → Bool
  pub sha256_hex : Text → Text
  pub time_text : ℕ → Text
  pub time_of : Text → ℕ

pub record User : Type 0 where
  pub id : ℕ
  pub username : Text
  pub password_hash : Text
  pub created_at : Text

pub record Session : Type 0 where
  pub token : Text
  pub user_id : ℕ
  pub created_at : Text
  pub expires_at : Text

-- The tables `users` and `sessions`.
pub record Accounts : Type 0 where
  pub users : List User
  pub sessions : List Session

pub data AccountError : Type 0 where
  no_match username_required password_too_short hash_failed username_taken token_taken
        no_such_user :
      AccountError

pub data Account {ℓ} (A : Type ℓ) : Type ℓ where
  granted : A → Account A
  refused : AccountError → Account A

-- 24 hours and 7 days in nanoseconds.
abbrev pub session_idle_ttl : ℕ
session_idle_ttl = 86400000000000

abbrev pub session_max_ttl : ℕ
session_max_ttl = 604800000000000

unfoldable pub has_users : Accounts → Bool
has_users acc = not (is_nil acc.users)

abbrev pub has_username : Text → User → Bool
has_username name u = str_eq u.username name

abbrev pub has_user_id : ℕ → User → Bool
has_user_id id u = u.id == id

abbrev pub has_token : Text → Session → Bool
has_token hash s = str_eq s.token hash

unfoldable pub insert_user : Text → ℕ → Text → Option Text → Accounts → Account (User × Accounts)
insert_user now id name none acc = refused hash_failed
insert_user now id name (some hash) acc =
    if any (has_username name) acc.users
    then refused username_taken
    else let u : User = record {
      id = id;
      username = name;
      password_hash = hash;
      created_at = now;
    } in
      granted (u, record acc { users = acc.users ++ u ∷ [] })

unfoldable pub create_user : Externals → ℕ → ℕ → Text → Text → Accounts → Account (User × Accounts)
unfolding insert_user
create_user ext now id username password acc =
    let name = trim_space username in
    if is_nil name
    then refused username_required
    else if ltb (length password) 12
    then refused password_too_short
    else insert_user (ext.time_text now) id name (ext.hash_password password) acc

abbrev pub with_hash : ℕ → Text → User → User
with_hash id hash u = if has_user_id id u then record u { password_hash = hash } else u

abbrev pub owned_by : ℕ → Session → Bool
owned_by id s = s.user_id == id

unfoldable pub replace_password : ℕ → Option Text → Accounts → Account Accounts
replace_password id none acc = refused hash_failed
replace_password id (some hash) acc = granted (record {
  users = map (with_hash id hash) acc.users;
  sessions = filter (λ s. not (owned_by id s)) acc.sessions;
})

unfoldable pub set_password : Externals → ℕ → Text → Accounts → Account Accounts
unfolding replace_password
set_password ext id password acc =
    if ltb (length password) 12
    then refused password_too_short
    else replace_password id (ext.hash_password password) acc

unfoldable pub check_password : Externals → Text → Option User → Option User
check_password ext password none = none
check_password ext password (some u) =
    if ext.password_matches u.password_hash password
    then some (record u { password_hash = [] })
    else none

-- `none` is ErrNotFound.
unfoldable pub authenticate : Externals → Text → Text → Accounts → Option User
unfolding check_password
authenticate ext username password acc =
    check_password ext password (find? (has_username (trim_space username)) acc.users)

abbrev older : User → Option User → User
older u none = u
older u (some v) = if ltb v.id u.id then v else u

-- `ORDER BY id LIMIT 1`.
unfoldable pub first_user : List User → Option User
first_user [] = none
first_user (u ∷ us) = some (older u (first_user us))

abbrev pub hash_token : Externals → Text → Text
hash_token ext token = ext.sha256_hex token

abbrev pub new_session : Externals → ℕ → Text → ℕ → ℕ → Session
new_session ext now token user_id expires = record {
  token = hash_token ext token;
  user_id = user_id;
  created_at = ext.time_text now;
  expires_at = ext.time_text expires;
}

-- The insertion, `taken` and `missing` being what the constraints say.
unfoldable pub insert_session :
    Externals → ℕ → Text → ℕ → Accounts → Bool → Bool → Account (ℕ × Accounts)
insert_session ext now token user_id acc true missing = refused token_taken
insert_session ext now token user_id acc false true = refused no_such_user
insert_session ext now token user_id acc false false =
    let expires = now + session_idle_ttl in
    granted (
      expires,
      record acc { sessions = acc.sessions ++ new_session ext now token user_id expires ∷ [] },
    )

-- The token column is a primary key, and a session's user exists.
unfoldable pub create_session : Externals → ℕ → Text → ℕ → Accounts → Account (ℕ × Accounts)
unfolding insert_session
create_session ext now token user_id acc =
    insert_session ext now token user_id acc (any (has_token (hash_token ext token)) acc.sessions)
      (not (any (has_user_id user_id) acc.users))

unfoldable pub delete_session : Externals → Text → Accounts → Accounts
delete_session ext token acc = record acc {
  sessions = filter (λ s. not (has_token (hash_token ext token) s)) acc.sessions;
}

abbrev pub expire_at : Text → Text → Session → Session
expire_at hash expires s = if has_token hash s then record s { expires_at = expires } else s

-- The deadline is written only when it is off by more than half a window.
unfoldable pub slide : Externals → Text → ℕ → ℕ → Accounts → Accounts
slide ext token idle_ends want acc =
    let slack = session_idle_ttl / 2 in
    if ltb idle_ends (want - slack) || ltb (want + slack) idle_ends
    then record acc {
      sessions = map (expire_at (hash_token ext token) (ext.time_text want)) acc.sessions;
    }
    else acc

-- The row of the token, joined with its user's.
unfoldable pub joined : Option Session → List User → Option (Session × User)
joined none us = none
joined (some s) us = elim (find? (has_user_id s.user_id) us) [ none ↦ none | some u ↦ some (s, u) ]

unfoldable pub session_row : Text → Accounts → Option (Session × User)
unfolding joined
session_row hash acc = joined (find? (has_token hash) acc.sessions) acc.users

unfoldable pub resolve_session :
    Externals → ℕ → Text → Accounts → Option (Session × User) → Option User × Accounts
unfolding delete_session slide
resolve_session ext now token acc none = (none, acc)
resolve_session ext now token acc (some (s, u)) =
    let idle_ends = ext.time_of s.expires_at in
    let hard_ends = ext.time_of s.created_at + session_max_ttl in
    let want =
      (if ltb hard_ends (now + session_idle_ttl) then hard_ends else now + session_idle_ttl) in
    if ltb idle_ends now || ltb hard_ends now
    then (none, delete_session ext token acc)
    else (some (record u { password_hash = [] }), slide ext token idle_ends want acc)

-- `UserBySession`; `none` is ErrNotFound.
unfoldable pub user_by_session : Externals → ℕ → Text → Accounts → Option User × Accounts
unfolding resolve_session session_row
user_by_session ext now token acc =
    if is_nil token
    then (none, acc)
    else resolve_session ext now token acc (session_row (hash_token ext token) acc)

unfoldable pub prune_sessions : Text → Accounts → Accounts
prune_sessions now acc = record acc {
  sessions = filter (λ s. not (text_ltb s.expires_at now)) acc.sessions;
}
