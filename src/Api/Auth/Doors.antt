-- ===== src/Api/Auth/Doors.antt =====
-- What the handlers of internal/api/auth.go let in, and what signing out ends.
use openpreflight.Prelude.{
  ℕ, ◌+◌, ◌≤◌, ◌<◌, ◌≡◌, ◌≢◌, refl, sym, ap, Bool, true, false, Bool-cases, not, ◌||◌, ◌⊎◌, inl,
  inr, List, [], ◌∷◌, Option, none, some, some-injective, is_nil, arith, All, length, filter, find?,
}
use openpreflight.Go.Strings.{Text, codes, str_eq, str_eq_iff, has_prefix, trim_space}
use openpreflight.Store.Users.{
  Externals, User, Session, Accounts, Account, granted, refused, has_users, has_username, has_token,
  hash_token, create_user, insert_session, authenticate, check_password, create_session,
  delete_session, session_max_ttl, user_by_session,
}
use openpreflight.Store.Users.Sessions.{
  Call, Fresh, apply_calls, Rows, Rows-filter, Rows-apply_calls,
}
use openpreflight.Store.Users.Expiry.{late_token}
use openpreflight.Api.Input.{Input, str}
use openpreflight.Api.Session.{WebRequest, cookie_value, bearer_token}
use openpreflight.Api.Auth.{
  Console, Draw, Answer, LoginLimiter, signed_in, allow, set_session, session_answer, created_admin,
  setup_with, setup_username, handle_setup, sign_in_as, try_sign_in, within_budget, handle_login,
  handle_logout, without,
}

create_user-length :
    (ext : Externals) (now id : ℕ) (name pw : Text) (acc acc' : Accounts) (u : User)
    → create_user ext now id name pw acc ≡ granted (u, acc')
    → 12 ≤ length pw
unfolding create_user
create_user-length ext now id name pw acc acc' u h = ground arith

set_session-users :
    (ext : Externals) (d : Draw) (id : ℕ) (a : Answer) (c : Console)
    → (set_session ext d id a c).1.accounts.users ≡ c.accounts.users
unfolding set_session create_session insert_session
set_session-users ext d id a c = ground arith

-- What a setup needs: no admin yet, the server's token, which is not empty, and a long password.
pub record MaySetUp (setup_token : Text) (inp : Option Input) (c : Console) : Type 0 where
  pub no_admin : c.accounts.users ≡ []
  pub has_setup_token : setup_token ≢ []
  pub given : Input
  pub readable : inp ≡ some given
  pub shows_token : str (codes "setup_token") given ≡ setup_token
  pub long_password : 12 ≤ length (str (codes "password") given)

created_admin-long :
    (ext : Externals) (d : Draw) (inp : Input) (c : Console) (name pw : Text)
    (r : Account (User × Accounts))
    → create_user ext d.now d.id name pw c.accounts ≡ r
    → (created_admin ext d inp c r).1.accounts.users ≢ c.accounts.users
    → 12 ≤ length pw
unfolding created_admin
created_admin-long ext d inp c name pw (refused e) q h = absurd (h refl)
created_admin-long ext d inp c name pw (granted (u, acc)) q h =
    create_user-length ext d.now d.id name pw c.accounts acc u q

setup_with-MaySetUp :
    (ext : Externals) (setup_token : Text) (d : Draw) (inp : Option Input) (c : Console)
    → c.accounts.users ≡ []
    → (setup_with ext setup_token d c inp).1.accounts.users ≢ c.accounts.users
    → MaySetUp setup_token inp c
unfolding setup_with
setup_with-MaySetUp ext setup_token d none c empty h = absurd (h refl)
setup_with-MaySetUp ext setup_token d (some inp) c empty h =
    elim (Bool-cases
      (is_nil setup_token || not (str_eq (str (codes "setup_token") inp) setup_token))) [
        | inl e ↦ absurd (h (rw e refl))
        | inr e ↦ record {
          no_admin = empty;
          has_setup_token = (λ q. absurd (ground (arith, ap is_nil q)));
          given = inp;
          readable = refl;
          shows_token = (str_eq_iff _ _).0 (ground arith);
          long_password =
              created_admin-long ext d inp c (setup_username inp) (str (codes "password") inp) _
                refl (rw e at h);
        }
      ]

-- The handler of setup changes the table of admins only if none is in it, the request shows the token of the
-- server's log, which is not empty, and the password has twelve bytes.
pub handle_setup-MaySetUp :
    (ext : Externals) (setup_token : Text) (d : Draw) (inp : Option Input) (c : Console)
    → (handle_setup ext setup_token d inp c).1.accounts.users ≢ c.accounts.users
    → MaySetUp setup_token inp c
unfolding handle_setup has_users
handle_setup-MaySetUp ext setup_token d inp c h = elim (Bool-cases (is_nil c.accounts.users)) [
  | inl e ↦ setup_with-MaySetUp ext setup_token d inp c (ground arith) (rw e at h)
  | inr e ↦ absurd (h (rw e refl))
]

-- An attempt that is let through by the limiter, of a user whose hash the password matches.
pub record MaySignIn (ext : Externals) (d : Draw) (addr : Text) (inp : Option Input) (c : Console)
    (u : User) : Type 0 where
  pub in_budget : (allow d.now addr c.logins).0 ≡ true
  pub given : Input
  pub readable : inp ≡ some given
  pub row : User
  pub named :
      find? (has_username (trim_space (str (codes "username") given))) c.accounts.users ≡ some row
  pub matches : ext.password_matches row.password_hash (str (codes "password") given) ≡ true
  pub same_user : u.id ≡ row.id

session_answer-signed_in :
    (a : Answer) (c : Console) (r : Account (ℕ × Accounts)) (u : User)
    → (session_answer a c r).0 ≡ signed_in u
    → a ≡ signed_in u
unfolding session_answer
session_answer-signed_in a c (refused e) u h = absurd (cc)
session_answer-signed_in a c (granted (t, acc)) u h = h

sign_in_as-some :
    (ext : Externals) (d : Draw) (addr : Text) (c : Console) (o : Option User) (u : User)
    → (sign_in_as ext d addr c o).0 ≡ signed_in u
    → o ≡ some u
unfolding sign_in_as set_session
sign_in_as-some ext d addr c none u h = absurd (cc)
sign_in_as-some ext d addr c (some v) u h = cc (session_answer-signed_in (signed_in v) _ _ u h)

check_password-row :
    (ext : Externals) (pw : Text) (u : User) (o : Option User)
    → check_password ext pw o ≡ some u
    → (row : User) × (o ≡ some row)
      × (ext.password_matches row.password_hash pw ≡ true)
      × (u.id ≡ row.id)
unfolding check_password
check_password-row ext pw u none h = absurd (cc)
check_password-row ext pw u (some row) h =
    elim (Bool-cases (ext.password_matches row.password_hash pw)) [
      | inl e ↦ (row, refl, e, ap (λ (v : User). v.id) (sym (some-injective (rw e at h))))
      | inr e ↦ absurd (cc (rw e at h))
    ]

authenticate-row :
    (ext : Externals) (name pw : Text) (acc : Accounts) (u : User)
    → authenticate ext name pw acc ≡ some u
    → (row : User) × (find? (has_username (trim_space name)) acc.users ≡ some row)
      × (ext.password_matches row.password_hash pw ≡ true)
      × (u.id ≡ row.id)
unfolding authenticate
authenticate-row ext name pw acc u h =
    check_password-row ext pw u (find? (has_username (trim_space name)) acc.users) h

within_budget-MaySignIn :
    (ext : Externals) (d : Draw) (addr : Text) (inp : Option Input) (c : Console) (u : User)
    (r : Bool × ℕ × LoginLimiter)
    → allow d.now addr c.logins ≡ r
    → (within_budget ext d addr inp c r).0 ≡ signed_in u
    → MaySignIn ext d addr inp c u
unfolding within_budget try_sign_in
within_budget-MaySignIn ext d addr inp c u (false, wait, l) q h = absurd (cc)
within_budget-MaySignIn ext d addr none c u (true, wait, l) q h = absurd (cc)
within_budget-MaySignIn ext d addr (some inp) c u (true, wait, l) q h =
    let known = sign_in_as-some ext d addr (record c { logins = l }) _ u h in
    let (row, named, matches, same) =
      authenticate-row ext (str (codes "username") inp) (str (codes "password") inp) c.accounts u
        known in
    record {
      in_budget = ap (λ r. r.0) q;
      given = inp;
      readable = refl;
      row = row;
      named = named;
      matches = matches;
      same_user = same;
    }

-- A sign-in is answered with a session only within the budget of its address, and for a user of the
-- table whose stored hash the password of the request matches.
pub handle_login-MaySignIn :
    (ext : Externals) (d : Draw) (addr : Text) (inp : Option Input) (c : Console) (u : User)
    → (handle_login ext d addr inp c).0 ≡ signed_in u
    → MaySignIn ext d addr inp c u
unfolding handle_login
handle_login-MaySignIn ext d addr inp c u h =
    within_budget-MaySignIn ext d addr inp c u (allow d.now addr c.logins) refl h

-- The tokens that a request shows.
abbrev pub Shows : WebRequest → Text → Type 0
Shows r token =
    (token ≢ [])
    × ((cookie_value r.session_cookie ≡ token)
        ⊎ (has_prefix r.authorization (codes "Bearer ") ≡ true) × (bearer_token r ≡ token))

delete_session-Rows :
    (ext : Externals) (token : Text) (P : Text → Type 0) (ss : List Session)
    → Rows (hash_token ext token) P (filter (λ s. not (has_token (hash_token ext token) s)) ss)
delete_session-Rows ext token P [] = tt
delete_session-Rows ext token P (s ∷ ss) = elim (Bool-cases (has_token (hash_token ext token) s)) [
  | inl e ↦ rw e (delete_session-Rows ext token P ss)
  | inr e ↦ rw e ((λ q. absurd (cc (e, q))), delete_session-Rows ext token P ss)
]

without-Rows :
    (ext : Externals) (token : Text) (P : Text → Type 0) (acc : Accounts)
    → token ≢ []
    → Rows (hash_token ext token) P (without ext token acc).sessions
unfolding delete_session
without-Rows ext [] P acc h = absurd (h refl)
without-Rows ext (c ∷ t) P acc h = delete_session-Rows ext (c ∷ t) P acc.sessions

without-keeps :
    (ext : Externals) (other hash : Text) (P : Text → Type 0) (acc : Accounts)
    → Rows hash P acc.sessions
    → Rows hash P (without ext other acc).sessions
unfolding delete_session
without-keeps ext [] hash P acc h = h
without-keeps ext (c ∷ t) hash P acc h = Rows-filter hash P _ acc.sessions h

cookie-Rows :
    (ext : Externals) (r : WebRequest) (token : Text) (P : Text → Type 0) (acc : Accounts)
    → token ≢ []
    → cookie_value r.session_cookie ≡ token
    → Rows (hash_token ext token) P (without ext (cookie_value r.session_cookie) acc).sessions
cookie-Rows ext r token P acc given e = rw e (without-Rows ext token P acc given)

handle_logout-Rows :
    (ext : Externals) (r : WebRequest) (token : Text) (P : Text → Type 0) (acc : Accounts)
    → Shows r token
    → Rows (hash_token ext token) P (handle_logout ext r acc).sessions
unfolding handle_logout
handle_logout-Rows ext r token P acc (given, inl e) =
    let kept = cookie-Rows ext r token P acc given e in
    elim (Bool-cases (has_prefix r.authorization (codes "Bearer "))) [
      | inl b ↦ rw b (without-keeps ext (bearer_token r) (hash_token ext token) P _ kept)
      | inr b ↦ rw b kept
    ]
handle_logout-Rows ext r token P acc (given, inr (b, e)) =
    rw (b, e) (without-Rows ext token P _ given)

-- Signing out ends both credentials that the request shows, the cookie and the Bearer token: neither
-- is accepted ever after, if it is not drawn again.
pub handle_logout-ends :
    (ext : Externals) (r : WebRequest) (token : Text) (acc : Accounts) (cs : List Call) (now : ℕ)
    → Shows r token
    → All (Fresh ext (hash_token ext token)) cs
    → (user_by_session ext now token (apply_calls ext cs (handle_logout ext r acc))).0 ≡ none
handle_logout-ends ext r token acc cs now shown fresh =
    late_token ext now token (apply_calls ext cs (handle_logout ext r acc)) (
      Rows-apply_calls (hash_token ext token) (λ c. ext.time_of c + session_max_ttl < now) ext cs
        (handle_logout ext r acc) fresh (handle_logout-Rows ext r token _ acc shown))
