-- ===== src/Api/Session/Guard.antt =====
-- What the guard of internal/api/server.go lets through.
use openpreflight.Prelude.{
  ℕ, ◌≡◌, ◌≢◌, refl, sym, ap, ◌∙◌, [], ◌⊎◌, inl, inr, Bool, true, false, Bool-cases, not, ◌&&◌,
  Option, none, some, arith, is_nil, find?,
}
use openpreflight.Go.Strings.{Text, codes, str_eq, str_eq_iff, has_prefix}
use openpreflight.Store.Users.{
  Externals, User, Session, Accounts, has_token, hash_token, has_users, user_by_session,
}
use openpreflight.Store.Users.Expiry.{IsLive, user_by_session-IsLive}
use openpreflight.Api.Session.{
  WebRequest, cookie_value, is_unsafe, csrf_ok, bearer_token, Caller, by_bearer, from_bearer,
  after_cookie, authenticate, pass, guard, guard_caller,
}

-- The token's row, in the table as it is looked up.
abbrev pub HasSession : Externals → ℕ → Text → Accounts → User → Type 0
HasSession ext now token acc u =
    (s : Session) × (find? (has_token (hash_token ext token)) acc.sessions ≡ some s)
    × IsLive ext now u s

-- A cookie of a live session, or a Bearer token of one, looked up when the cookie's is refused.
abbrev pub Identified : Externals → ℕ → WebRequest → Accounts → User → Bool → Type 0
Identified ext now r acc u true = HasSession ext now (cookie_value r.session_cookie) acc u
Identified ext now r acc u false =
    (acc' : Accounts) × ((acc' ≡ acc)
      ⊎ (acc' ≡ (user_by_session ext now (cookie_value r.session_cookie) acc).1))
    × (has_prefix r.authorization (codes "Bearer ") ≡ true)
    × HasSession ext now (bearer_token r) acc' u

-- A method that is safe, or the CSRF cookie's value a second time, in the header or the form.
abbrev pub Confirmed : WebRequest → Type 0
Confirmed r =
    (r.method ≡ codes "GET")
    ⊎ (r.method ≡ codes "HEAD")
    ⊎ (r.method ≡ codes "OPTIONS")
    ⊎ (cookie_value r.csrf_cookie ≢ [])
      × ((r.csrf_header ≡ cookie_value r.csrf_cookie) ⊎ (r.csrf_field ≡ cookie_value r.csrf_cookie))

by_bearer-Identified :
    (ext : Externals) (now : ℕ) (r : WebRequest) (acc : Accounts) (u : User) (via : Bool)
    → (by_bearer ext now r acc).0 ≡ some (u, via)
    → (via ≡ false)
      × (has_prefix r.authorization (codes "Bearer ") ≡ true)
      × HasSession ext now (bearer_token r) acc u
unfolding by_bearer
by_bearer-Identified ext now r acc u via h =
    elim (Bool-cases (has_prefix r.authorization (codes "Bearer "))) [
      | inl e ↦ go (user_by_session ext now (bearer_token r) acc) refl e (rw e at h)
      | inr e ↦ absurd (cc (rw e at h))
    ]
  where
    go :
        (a : Option User × Accounts)
        → user_by_session ext now (bearer_token r) acc ≡ a
        → has_prefix r.authorization (codes "Bearer ") ≡ true
        → (from_bearer a).0 ≡ some (u, via)
        → (via ≡ false)
          × (has_prefix r.authorization (codes "Bearer ") ≡ true)
          × HasSession ext now (bearer_token r) acc u
    go (none, acc') e p h = absurd (cc)
    go (some v, acc') e p h =
        (cc, p, user_by_session-IsLive ext now (bearer_token r) acc u (ap (λ a. a.0) e ∙ cc))

authenticate-Identified :
    (ext : Externals) (now : ℕ) (r : WebRequest) (acc : Accounts) (u : User) (via : Bool)
    → (authenticate ext now r acc).0 ≡ some (u, via)
    → Identified ext now r acc u via
unfolding authenticate
authenticate-Identified ext now r acc u via h =
    elim (Bool-cases (is_nil (cookie_value r.session_cookie))) [
      | inl e ↦ bearer acc (inl refl) (rw e at h)
      | inr e ↦ go (user_by_session ext now (cookie_value r.session_cookie) acc) refl (rw e at h)
    ]
  where
    bearer :
        (acc' : Accounts)
        → (acc' ≡ acc) ⊎ (acc' ≡ (user_by_session ext now (cookie_value r.session_cookie) acc).1)
        → (by_bearer ext now r acc').0 ≡ some (u, via)
        → Identified ext now r acc u via
    bearer acc' which k =
        let (v, p, row) = by_bearer-Identified ext now r acc' u via k in rw v (acc', which, p, row)

    go :
        (a : Option User × Accounts)
        → user_by_session ext now (cookie_value r.session_cookie) acc ≡ a
        → (after_cookie ext now r a).0 ≡ some (u, via)
        → Identified ext now r acc u via
    go (none, acc') e k = bearer acc' (inr (ap (λ a. a.1) (sym e))) k
    go (some v, acc') e k =
        let v_true : via ≡ true = cc in
        rw v_true (
          user_by_session-IsLive ext now (cookie_value r.session_cookie) acc u
            (ap (λ a. a.0) e ∙ cc))

unsafe_ok :
    (r : WebRequest)
    → str_eq r.method (codes "GET") ≡ false
    → str_eq r.method (codes "HEAD") ≡ false
    → str_eq r.method (codes "OPTIONS") ≡ false
    → (is_unsafe r.method && not (csrf_ok r)) ≡ false
    → csrf_ok r ≡ true
unfolding is_unsafe
unsafe_ok r g k o h = ground arith

matching :
    (kept sent : Text)
    → (not (is_nil kept) && (not (is_nil sent) && str_eq sent kept)) ≡ true
    → (kept ≢ []) × (sent ≡ kept)
matching kept sent h =
    ((λ e. absurd (ground (arith, ap is_nil e))), (str_eq_iff sent kept).0 (ground arith))

sent_value :
    (r : WebRequest)
    → csrf_ok r ≡ true
    → (cookie_value r.csrf_cookie ≢ [])
      × ((r.csrf_header ≡ cookie_value r.csrf_cookie) ⊎ (r.csrf_field ≡ cookie_value r.csrf_cookie))
unfolding csrf_ok
sent_value r h = elim (Bool-cases (is_nil r.csrf_header)) [
  | inl e ↦ let m = matching (cookie_value r.csrf_cookie) r.csrf_field (rw e at h) in (m.0, inr m.1)
  | inr e ↦
      let m = matching (cookie_value r.csrf_cookie) r.csrf_header (rw e at h) in (m.0, inl m.1)
]

csrf_ok-Confirmed : (r : WebRequest) → (is_unsafe r.method && not (csrf_ok r)) ≡ false → Confirmed r
unfolding is_unsafe csrf_ok
csrf_ok-Confirmed r h = elim (Bool-cases (str_eq r.method (codes "GET"))) [
  | inl e ↦ inl ((str_eq_iff _ _).0 e)
  | inr g ↦ elim (Bool-cases (str_eq r.method (codes "HEAD"))) [
    | inl e ↦ inr (inl ((str_eq_iff _ _).0 e))
    | inr k ↦ elim (Bool-cases (str_eq r.method (codes "OPTIONS"))) [
      | inl e ↦ inr (inr (inl ((str_eq_iff _ _).0 e)))
      | inr o ↦ inr (inr (inr (sent_value r (unsafe_ok r g k o h))))
    ]
  ]
]

guard_caller-pass :
    (r : WebRequest) (c : Caller × Accounts) (u : User)
    → (guard_caller r c).0 ≡ pass u
    → (via : Bool) × (c.0 ≡ some (u, via)) × (via ≡ true → Confirmed r)
unfolding guard_caller
guard_caller-pass r (none, acc) u h = elim (Bool-cases r.json_surface) [
  | inl e ↦ absurd (cc (rw e at h))
  | inr e ↦ absurd (cc (rw e at h))
]
guard_caller-pass r (some (v, false), acc) u h = (false, cc, (λ e. absurd (cc)))
guard_caller-pass r (some (v, true), acc) u h =
    elim (Bool-cases (is_unsafe r.method && not (csrf_ok r))) [
      | inl e ↦ absurd (cc (rw e at h))
      | inr e ↦ (true, cc (rw e at h), (λ q. csrf_ok-Confirmed r e))
    ]

-- A guarded handler runs only once an admin exists, and for a user whose live session the request
-- shows in its cookie or as its Bearer token. With the cookie, the method is safe, or the request
-- repeats the value of its CSRF cookie, which is not empty.
pub guard-pass :
    (ext : Externals) (now : ℕ) (r : WebRequest) (acc : Accounts) (u : User)
    → (guard ext now r acc).0 ≡ pass u
    → (acc.users ≢ []) × (via : Bool) × Identified ext now r acc u via × (via ≡ true → Confirmed r)
unfolding guard has_users
guard-pass ext now r acc u h = elim (Bool-cases (is_nil acc.users)) [
  | inl e ↦ absurd (ground arith)
  | inr e ↦
      let (via, caller, sent) = guard_caller-pass r (authenticate ext now r acc) u (rw e at h) in
      (ground arith, via, authenticate-Identified ext now r acc u via caller, sent)
]
