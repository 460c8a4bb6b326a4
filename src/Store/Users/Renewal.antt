-- ===== src/Store/Users/Renewal.antt =====
-- A session of internal/store/users.go that is in use goes on.
use openpreflight.Prelude.{
  ℕ, ◌+◌, ◌-◌, ◌/◌, ◌≤◌, ◌≡◌, refl, Bool-cases, ◌||◌, inl, inr, List, [], ◌∷◌, map, none, some,
  some-injective, Option-cases, sym, ◌∙◌, arith, ltb, if◌then◌else◌, find?,
}
use openpreflight.Go.Strings.{Text}
use openpreflight.Store.Users.{
  Externals, User, Session, Accounts, session_idle_ttl, session_max_ttl, has_token, has_user_id,
  expire_at, hash_token, slide, joined, session_row, resolve_session, user_by_session,
}
use openpreflight.Store.Users.Expiry.{session_row-some, resolve_session-none}

find?-expire_at :
    (hash expires : Text) (ss : List Session) (s : Session)
    → find? (has_token hash) ss ≡ some s
    → find? (has_token hash) (map (expire_at hash expires) ss)
      ≡ some (record s { expires_at = expires })
find?-expire_at hash expires [] s h = cc
find?-expire_at hash expires (r ∷ ss) s h = ground (arith, find?-expire_at hash expires ss s)

session_row_of :
    (hash : Text) (acc : Accounts) (s : Session) (u : User)
    → find? (has_token hash) acc.sessions ≡ some s
    → find? (has_user_id s.user_id) acc.users ≡ some u
    → session_row hash acc ≡ some (s, u)
unfolding session_row joined
session_row_of hash acc s u h k = rw h (ground arith)

-- The row after a request: its deadline is at most half a window before what is wanted.
slid_row :
    (ext : Externals) (token : Text) (idle want : ℕ) (acc : Accounts) (s : Session) (u : User)
    → ((t : ℕ) → ext.time_of (ext.time_text t) ≡ t)
    → ext.time_of s.expires_at ≡ idle
    → session_row (hash_token ext token) acc ≡ some (s, u)
    → (s' : Session) × (session_row (hash_token ext token) (slide ext token idle want acc)
        ≡ some (s', u))
      × (s'.created_at ≡ s.created_at)
      × (want ≤ ext.time_of s'.expires_at + session_idle_ttl / 2)
unfolding slide
slid_row ext token idle want acc s u back e h =
    let (found, owner) = session_row-some (hash_token ext token) acc s u h in
    elim (Bool-cases
      (ltb idle (want - session_idle_ttl / 2) || ltb (want + session_idle_ttl / 2) idle)) [
        | inl t ↦ (
          record s { expires_at = ext.time_text want },
          rw t (
              session_row_of (hash_token ext token) _ _ u (find?-expire_at _ _ acc.sessions s found)
                owner),
          refl,
          omega (arith, back want),
        )
        | inr t ↦ (s, rw t h, refl, ground arith)
      ]

resolve_session-some :
    (ext : Externals) (now : ℕ) (token : Text) (acc : Accounts) (s : Session) (u : User)
    → now ≤ ext.time_of s.expires_at
    → now ≤ ext.time_of s.created_at + session_max_ttl
    → (resolve_session ext now token acc (some (s, u))).0 ≡ some (record u { password_hash = [] })
unfolding resolve_session
resolve_session-some ext now token acc s u h k = ground arith

abbrev deadline : ℕ → ℕ → ℕ
deadline now hard = if ltb hard (now + session_idle_ttl) then hard else now + session_idle_ttl

accepted :
    (ext : Externals) (now : ℕ) (token : Text) (acc : Accounts) (s : Session) (v u : User)
    → (resolve_session ext now token acc (some (s, v))).0 ≡ some u
    → (u ≡ record v { password_hash = [] })
      × ((resolve_session ext now token acc (some (s, v))).1
          ≡ slide ext token
              (ext.time_of s.expires_at)
              (deadline now (ext.time_of s.created_at + session_max_ttl))
              acc)
unfolding resolve_session
accepted ext now token acc s v u h =
    elim (Bool-cases (
      ltb (ext.time_of s.expires_at) now || ltb (ext.time_of s.created_at + session_max_ttl) now)) [
        | inl e ↦ absurd (cc (rw e at h))
        | inr e ↦ (cc (rw e at h), rw e refl)
      ]

user_by_session_of :
    (ext : Externals) (now c : ℕ) (t : Text) (acc : Accounts) (s : Session) (v : User)
    → session_row (hash_token ext (c ∷ t)) acc ≡ some (s, v)
    → user_by_session ext now (c ∷ t) acc ≡ resolve_session ext now (c ∷ t) acc (some (s, v))
unfolding user_by_session
user_by_session_of ext now c t acc s v h = rw h refl

no_token :
    (ext : Externals) (now : ℕ) (acc : Accounts) (u : User)
    → (user_by_session ext now [] acc).0 ≡ some u
    → ⊥
unfolding user_by_session
no_token ext now acc u h = cc

no_row :
    (ext : Externals) (now c : ℕ) (t : Text) (acc : Accounts) (u : User)
    → session_row (hash_token ext (c ∷ t)) acc ≡ none
    → (user_by_session ext now (c ∷ t) acc).0 ≡ some u
    → ⊥
unfolding user_by_session
no_row ext now c t acc u e h = resolve_session-none ext now (c ∷ t) acc u (rw e at h)

renewed :
    (ext : Externals) (now later c : ℕ) (t : Text) (acc : Accounts) (s : Session) (v u : User)
    → ((n : ℕ) → ext.time_of (ext.time_text n) ≡ n)
    → session_row (hash_token ext (c ∷ t)) acc ≡ some (s, v)
    → (user_by_session ext now (c ∷ t) acc).0 ≡ some u
    → later ≤ now + session_idle_ttl / 2
    → later + session_idle_ttl / 2 ≤ ext.time_of s.created_at + session_max_ttl
    → (user_by_session ext later (c ∷ t) (user_by_session ext now (c ∷ t) acc).1).0 ≡ some u
renewed ext now later c t acc s v u back row h a b =
    let hard = ext.time_of s.created_at + session_max_ttl in
    let first = user_by_session_of ext now c t acc s v row in
    let (same, state) = accepted ext now (c ∷ t) acc s v u (rw first at h) in
    let (s', row', created, wide) =
      slid_row ext (c ∷ t) (ext.time_of s.expires_at) (deadline now hard) acc s v back refl row in
    let idle : later ≤ ext.time_of s'.expires_at = ground arith in
    let young : later ≤ ext.time_of s'.created_at + session_max_ttl = rw created (omega arith) in
    rw (first, state, user_by_session_of ext later c t _ s' v row', same)
      (resolve_session-some ext later (c ∷ t) _ s' v idle young)

-- A session that a request was accepted for stays good for the next twelve hours, unless these reach
-- into the last twelve hours of its seven days: a request of that time is accepted for the same user.
pub user_by_session-renews :
    (ext : Externals) (now later : ℕ) (token : Text) (acc : Accounts) (u : User) (s : Session)
    → ((t : ℕ) → ext.time_of (ext.time_text t) ≡ t)
    → find? (has_token (hash_token ext token)) acc.sessions ≡ some s
    → (user_by_session ext now token acc).0 ≡ some u
    → later ≤ now + session_idle_ttl / 2
    → later + session_idle_ttl / 2 ≤ ext.time_of s.created_at + session_max_ttl
    → (user_by_session ext later token (user_by_session ext now token acc).1).0 ≡ some u
user_by_session-renews ext now later [] acc u s back found h a b = absurd (no_token ext now acc u h)
user_by_session-renews ext now later (c ∷ t) acc u s back found h a b =
    elim (Option-cases (session_row (hash_token ext (c ∷ t)) acc)) [
      | inl e ↦ absurd (no_row ext now c t acc u e h)
      | inr ((r, v), e) ↦
          let same : r ≡ s =
            some-injective (sym (session_row-some (hash_token ext (c ∷ t)) acc r v e).0 ∙ found) in
          renewed ext now later c t acc r v u back e h a (rw same b)
    ]
