-- ===== src/Store/Users/Expiry.antt =====
-- When a session of internal/store/users.go ends: by its age, by a new password, by signing out.
use openpreflight.Prelude.{
  ℕ, ◌+◌, ◌≤◌, ◌<◌, ◌≡◌, refl, Bool, true, false, Bool-cases, not, inl, inr, List, [], ◌∷◌, ◌++◌,
  Option, none, some, Option-cases, arith, ltb, filter, find?, All, All-append, length,
}
use openpreflight.Go.Strings.{Text}
use openpreflight.Store.Users.{
  Externals, User, Session, Accounts, granted, session_idle_ttl, session_max_ttl, has_token,
  has_user_id, owned_by, hash_token, set_password, replace_password, create_session, insert_session,
  new_session, session_row, joined, resolve_session, user_by_session,
}
use openpreflight.Store.Users.Sessions.{
  Call, Fresh, apply_calls, Rows, Rows-absent, Rows-apply_calls, find?-Rows,
}

-- What the row of an accepted token says.
pub record IsLive (ext : Externals) (now : ℕ) (u : User) (s : Session) : Type 0 where
  pub owner : s.user_id ≡ u.id
  pub active : now ≤ ext.time_of s.expires_at
  pub young : now ≤ ext.time_of s.created_at + session_max_ttl

joined-some :
    (o : Option Session) (us : List User) (s : Session) (u : User)
    → joined o us ≡ some (s, u)
    → (o ≡ some s) × (find? (has_user_id s.user_id) us ≡ some u)
unfolding joined
joined-some none us s u h = cc
joined-some (some r) us s u h = ground arith

pub session_row-some :
    (hash : Text) (acc : Accounts) (s : Session) (u : User)
    → session_row hash acc ≡ some (s, u)
    → (find? (has_token hash) acc.sessions ≡ some s)
      × (find? (has_user_id s.user_id) acc.users ≡ some u)
unfolding session_row
session_row-some hash acc s u h = joined-some (find? (has_token hash) acc.sessions) acc.users s u h

pub resolve_session-none :
    (ext : Externals) (now : ℕ) (token : Text) (acc : Accounts) (u : User)
    → (resolve_session ext now token acc none).0 ≡ some u
    → ⊥
unfolding resolve_session
resolve_session-none ext now token acc u h = cc

resolve_session-IsLive :
    (ext : Externals) (now : ℕ) (token : Text) (acc : Accounts) (s : Session) (v u : User)
    → v.id ≡ s.user_id
    → (resolve_session ext now token acc (some (s, v))).0 ≡ some u
    → IsLive ext now u s
unfolding resolve_session
resolve_session-IsLive ext now token acc s v u e h = ground arith

pub find?-has_user_id :
    (id : ℕ) (us : List User) (u : User) → find? (has_user_id id) us ≡ some u → u.id ≡ id
find?-has_user_id id [] u h = cc
find?-has_user_id id (v ∷ us) u h = ground (arith, find?-has_user_id id us u)

-- A token is accepted only while its row, which belongs to the user that is returned, was used
-- within the idle window and is at most seven days old.
pub user_by_session-IsLive :
    (ext : Externals) (now : ℕ) (token : Text) (acc : Accounts) (u : User)
    → (user_by_session ext now token acc).0 ≡ some u
    → (s : Session) × (find? (has_token (hash_token ext token)) acc.sessions ≡ some s)
      × IsLive ext now u s
unfolding user_by_session
user_by_session-IsLive ext now [] acc u h = cc
user_by_session-IsLive ext now (c ∷ t) acc u h =
    go (session_row (hash_token ext (c ∷ t)) acc) refl h
  where
    go :
        (o : Option (Session × User))
        → session_row (hash_token ext (c ∷ t)) acc ≡ o
        → (resolve_session ext now (c ∷ t) acc o).0 ≡ some u
        → (s : Session) × (find? (has_token (hash_token ext (c ∷ t))) acc.sessions ≡ some s)
          × IsLive ext now u s
    go none e k = absurd (resolve_session-none ext now (c ∷ t) acc u k)
    go (some (s, v)) e k =
        let (found, owner) = session_row-some (hash_token ext (c ∷ t)) acc s v e in
        (
          s,
          found,
          resolve_session-IsLive ext now (c ∷ t) acc s v u
              (find?-has_user_id s.user_id acc.users v owner) k,
        )

-- A token whose rows are all too old is refused.
pub late_token :
    (ext : Externals) (now : ℕ) (token : Text) (acc : Accounts)
    → Rows (hash_token ext token) (λ c. ext.time_of c + session_max_ttl < now) acc.sessions
    → (user_by_session ext now token acc).0 ≡ none
late_token ext now token acc h = elim (Option-cases (user_by_session ext now token acc).0) [
  | inl e ↦ e
  | inr (u, e) ↦
      let (s, found, live) = user_by_session-IsLive ext now token acc u e in
      let old =
        find?-Rows (hash_token ext token) (λ c. ext.time_of c + session_max_ttl < now) acc.sessions
          s found h in
      absurd (omega (arith, live.young, old))
]

insert_session-Rows :
    (ext : Externals) (start : ℕ) (token : Text) (id : ℕ) (acc acc' : Accounts)
    (taken missing : Bool) (expires : ℕ) (P : Text → Type 0)
    → insert_session ext start token id acc taken missing ≡ granted (expires, acc')
    → (taken ≡ false → Rows (hash_token ext token) P acc.sessions)
    → P (ext.time_text start)
    → Rows (hash_token ext token) P acc'.sessions
unfolding insert_session
insert_session-Rows ext start token id acc acc' true missing expires P h old p = absurd (cc)
insert_session-Rows ext start token id acc acc' false true expires P h old p = absurd (cc)
insert_session-Rows ext start token id acc acc' false false expires P h old p =
    let new = new_session ext start token id (start + session_idle_ttl) in
    let same : acc'.sessions ≡ acc.sessions ++ new ∷ [] = cc in
    rw same (All-append _ acc.sessions _ (old refl) ((λ q. p), tt))

create_session-Rows :
    (ext : Externals) (start : ℕ) (token : Text) (id : ℕ) (acc acc' : Accounts) (expires : ℕ)
    (P : Text → Type 0)
    → create_session ext start token id acc ≡ granted (expires, acc')
    → P (ext.time_text start)
    → Rows (hash_token ext token) P acc'.sessions
unfolding create_session
create_session-Rows ext start token id acc acc' expires P h p =
    insert_session-Rows ext start token id acc acc' _ _ expires P h
      (Rows-absent (hash_token ext token) P acc.sessions) p

-- A session ends seven days after its sign-in, whatever calls are made between, if its token is not
-- drawn again: no request keeps it alive for longer.
pub session_ends :
    (ext : Externals) (start : ℕ) (token : Text) (id : ℕ) (acc acc' : Accounts) (expires : ℕ)
    (cs : List Call) (now : ℕ)
    → ((t : ℕ) → ext.time_of (ext.time_text t) ≡ t)
    → create_session ext start token id acc ≡ granted (expires, acc')
    → All (Fresh ext (hash_token ext token)) cs
    → start + session_max_ttl < now
    → (user_by_session ext now token (apply_calls ext cs acc')).0 ≡ none
session_ends ext start token id acc acc' expires cs now back h fresh late =
    late_token ext now token (apply_calls ext cs acc') (
      Rows-apply_calls (hash_token ext token) (λ c. ext.time_of c + session_max_ttl < now) ext cs
        acc' fresh
        (create_session-Rows ext start token id acc acc' expires _ h (omega (arith, back start))))

-- The rows of a user, and so of all its tokens.
abbrev pub Owns : ℕ → Text → List Session → Type 0
Owns id hash = All (λ s. has_token hash s ≡ true → s.user_id ≡ id)

Owns-filter :
    (id : ℕ) (hash : Text) (P : Text → Type 0) (ss : List Session)
    → Owns id hash ss
    → Rows hash P (filter (λ s. not (owned_by id s)) ss)
Owns-filter id hash P [] h = tt
Owns-filter id hash P (s ∷ ss) (h, hs) = elim (Bool-cases (owned_by id s)) [
  | inl e ↦ rw e (Owns-filter id hash P ss hs)
  | inr e ↦ rw e ((λ q. absurd (ground (arith, h q))), Owns-filter id hash P ss hs)
]

replace_password-Rows :
    (id : ℕ) (o : Option Text) (hash : Text) (P : Text → Type 0) (acc acc' : Accounts)
    → replace_password id o acc ≡ granted acc'
    → Owns id hash acc.sessions
    → Rows hash P acc'.sessions
unfolding replace_password
replace_password-Rows id none hash P acc acc' h own = absurd (cc)
replace_password-Rows id (some new) hash P acc acc' h own =
    let same : acc'.sessions ≡ filter (λ s. not (owned_by id s)) acc.sessions = cc in
    rw same (Owns-filter id hash P acc.sessions own)

set_password-Rows :
    (ext : Externals) (id : ℕ) (pw : Text) (hash : Text) (P : Text → Type 0) (acc acc' : Accounts)
    → set_password ext id pw acc ≡ granted acc'
    → Owns id hash acc.sessions
    → Rows hash P acc'.sessions
unfolding set_password
set_password-Rows ext id pw hash P acc acc' h own = elim (Bool-cases (ltb (length pw) 12)) [
  | inl e ↦ absurd (ground arith)
  | inr e ↦ replace_password-Rows id (ext.hash_password pw) hash P acc acc' (rw e at h) own
]

-- A new password ends every session of its user for good: a token whose row was the user's is
-- refused ever after, if it is not drawn again.
pub set_password-revokes :
    (ext : Externals) (id : ℕ) (pw token : Text) (acc acc' : Accounts) (cs : List Call) (now : ℕ)
    → set_password ext id pw acc ≡ granted acc'
    → Owns id (hash_token ext token) acc.sessions
    → All (Fresh ext (hash_token ext token)) cs
    → (user_by_session ext now token (apply_calls ext cs acc')).0 ≡ none
set_password-revokes ext id pw token acc acc' cs now h own fresh =
    late_token ext now token (apply_calls ext cs acc') (
      Rows-apply_calls (hash_token ext token) (λ c. ext.time_of c + session_max_ttl < now) ext cs
        acc' fresh (set_password-Rows ext id pw (hash_token ext token) _ acc acc' h own))
