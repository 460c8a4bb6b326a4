-- ===== src/Store/Users/Sessions.antt =====
-- How long a session lives: the calls of internal/store/users.go in any order.
use openpreflight.Prelude.{
  ℕ, ◌+◌, ◌-◌, ◌/◌, ◌≡◌, Bool, true, false, Bool-cases, not, ◌||◌, inl, inr, List, [], ◌∷◌, map,
  Option, none, some, some-injective, arith, ltb, any, filter, find?, All, All-append, length,
}
use openpreflight.Go.Strings.{Text, str_eq}
use openpreflight.Store.Users.{
  Externals, User, Session, Accounts, Account, granted, refused, session_idle_ttl, session_max_ttl,
  has_token, owned_by, hash_token, create_user, set_password, replace_password, insert_session,
  create_session, delete_session, slide, expire_at, resolve_session, user_by_session,
  prune_sessions,
}

-- The calls that change the tables, with the time and what is drawn.
pub data Call : Type 0 where
  add_user : ℕ → ℕ → Text → Text → Call
  new_password : ℕ → Text → Call
  sign_in : ℕ → Text → ℕ → Call
  request : ℕ → Text → Call
  sign_out : Text → Call
  prune : Text → Call

abbrev pub after_user : Accounts → Account (User × Accounts) → Accounts
after_user acc (refused e) = acc
after_user acc (granted (u, acc')) = acc'

abbrev pub after_password : Accounts → Account Accounts → Accounts
after_password acc (refused e) = acc
after_password acc (granted acc') = acc'

abbrev pub after_sign_in : Accounts → Account (ℕ × Accounts) → Accounts
after_sign_in acc (refused e) = acc
after_sign_in acc (granted (t, acc')) = acc'

pub apply_call : Externals → Call → Accounts → Accounts
apply_call ext (add_user now id name pw) acc = after_user acc (create_user ext now id name pw acc)
apply_call ext (new_password id pw) acc = after_password acc (set_password ext id pw acc)
apply_call ext (sign_in now token id) acc = after_sign_in acc (create_session ext now token id acc)
apply_call ext (request now token) acc = (user_by_session ext now token acc).1
apply_call ext (sign_out token) acc = delete_session ext token acc
apply_call ext (prune now) acc = prune_sessions now acc

pub apply_calls : Externals → List Call → Accounts → Accounts
unfolding apply_call
apply_calls ext [] acc = acc
apply_calls ext (c ∷ cs) acc = apply_calls ext cs (apply_call ext c acc)

-- The token is not drawn again.
abbrev pub Fresh : Externals → Text → Call → Type 0
Fresh ext hash (sign_in now token id) = str_eq (hash_token ext token) hash ≡ false
Fresh ext hash _ = Unit

create_user-sessions :
    (ext : Externals) (now id : ℕ) (name pw : Text) (acc : Accounts)
    → (after_user acc (create_user ext now id name pw acc)).sessions ≡ acc.sessions
unfolding create_user
create_user-sessions ext now id name pw acc = ground arith

-- What every row of a token satisfies, a predicate of its creation time.
abbrev pub Rows : Text → (Text → Type 0) → List Session → Type 0
Rows hash P = All (λ s. has_token hash s ≡ true → P s.created_at)

module _ (hash : Text) (P : Text → Type 0) where
  pub Rows-filter :
      (p : Session → Bool) (ss : List Session) → Rows hash P ss → Rows hash P (filter p ss)
  Rows-filter p [] h = tt
  Rows-filter p (s ∷ ss) (h, hs) = elim (Bool-cases (p s)) [
    | inl e ↦ rw e (h, Rows-filter p ss hs)
    | inr e ↦ rw e (Rows-filter p ss hs)
  ]

  expired_row :
      (other expires : Text) (s : Session)
      → (has_token hash s ≡ true → P s.created_at)
      → has_token hash (expire_at other expires s) ≡ true
      → P (expire_at other expires s).created_at
  expired_row other expires s h q = elim (Bool-cases (has_token other s)) [
    | inl e ↦ rw e (h (rw e at q))
    | inr e ↦ rw e (h (rw e at q))
  ]

  Rows-expire :
      (other expires : Text) (ss : List Session)
      → Rows hash P ss
      → Rows hash P (map (expire_at other expires) ss)
  Rows-expire other expires [] h = tt
  Rows-expire other expires (s ∷ ss) (h, hs) =
      (expired_row other expires s h, Rows-expire other expires ss hs)

  Rows-slide :
      (ext : Externals) (token : Text) (idle want : ℕ) (acc : Accounts)
      → Rows hash P acc.sessions
      → Rows hash P (slide ext token idle want acc).sessions
  unfolding slide
  Rows-slide ext token idle want acc h =
      elim (Bool-cases
        (ltb idle (want - session_idle_ttl / 2) || ltb (want + session_idle_ttl / 2) idle)) [
          | inl e ↦ rw e (Rows-expire (hash_token ext token) (ext.time_text want) acc.sessions h)
          | inr e ↦ rw e h
        ]

  Rows-resolve_session :
      (ext : Externals) (now : ℕ) (token : Text) (acc : Accounts) (o : Option (Session × User))
      → Rows hash P acc.sessions
      → Rows hash P (resolve_session ext now token acc o).1.sessions
  unfolding resolve_session delete_session
  Rows-resolve_session ext now token acc none h = h
  Rows-resolve_session ext now token acc (some (s, u)) h =
      let hard = ext.time_of s.created_at + session_max_ttl in
      elim (Bool-cases (ltb (ext.time_of s.expires_at) now || ltb hard now)) [
        | inl e ↦ rw e (Rows-filter _ acc.sessions h)
        | inr e ↦ rw e (Rows-slide ext token (ext.time_of s.expires_at) _ acc h)
      ]

  Rows-set_password :
      (id : ℕ) (acc : Accounts) (o : Option Text)
      → Rows hash P acc.sessions
      → Rows hash P (after_password acc (replace_password id o acc)).sessions
  unfolding replace_password
  Rows-set_password id acc none h = h
  Rows-set_password id acc (some new) h = Rows-filter (λ s. not (owned_by id s)) acc.sessions h

  Rows-sign_in :
      (ext : Externals) (now : ℕ) (token : Text) (id : ℕ) (acc : Accounts) (taken missing : Bool)
      → str_eq (hash_token ext token) hash ≡ false
      → Rows hash P acc.sessions
      → Rows hash P (after_sign_in acc (insert_session ext now token id acc taken missing)).sessions
  unfolding insert_session
  Rows-sign_in ext now token id acc true missing f h = h
  Rows-sign_in ext now token id acc false true f h = h
  Rows-sign_in ext now token id acc false false f h = All-append _ acc.sessions _ h ((λ q. cc), tt)

  Rows-apply_call :
      (ext : Externals) (c : Call) (acc : Accounts)
      → Fresh ext hash c
      → Rows hash P acc.sessions
      → Rows hash P (apply_call ext c acc).sessions
  unfolding apply_call user_by_session set_password create_session delete_session prune_sessions
  Rows-apply_call ext (add_user now id name pw) acc f h =
      rw (create_user-sessions ext now id name pw acc) h
  Rows-apply_call ext (new_password id pw) acc f h = elim (Bool-cases (ltb (length pw) 12)) [
    | inl e ↦ rw e h
    | inr e ↦ rw e (Rows-set_password id acc (ext.hash_password pw) h)
  ]
  Rows-apply_call ext (sign_in now token id) acc f h = Rows-sign_in ext now token id acc _ _ f h
  Rows-apply_call ext (request now []) acc f h = h
  Rows-apply_call ext (request now (c ∷ token)) acc f h =
      Rows-resolve_session ext now (c ∷ token) acc _ h
  Rows-apply_call ext (sign_out token) acc f h = Rows-filter _ acc.sessions h
  Rows-apply_call ext (prune now) acc f h = Rows-filter _ acc.sessions h

  pub Rows-apply_calls :
      (ext : Externals) (cs : List Call) (acc : Accounts)
      → All (Fresh ext hash) cs
      → Rows hash P acc.sessions
      → Rows hash P (apply_calls ext cs acc).sessions
  unfolding apply_calls
  Rows-apply_calls ext [] acc f h = h
  Rows-apply_calls ext (c ∷ cs) acc (f, fs) h =
      Rows-apply_calls ext cs (apply_call ext c acc) fs (Rows-apply_call ext c acc f h)

pub Rows-mono :
    (hash : Text) (P Q : Text → Type 0) (ss : List Session)
    → ((c : Text) → P c → Q c)
    → Rows hash P ss
    → Rows hash Q ss
Rows-mono hash P Q [] k h = tt
Rows-mono hash P Q (s ∷ ss) k (h, hs) = ((λ e. k s.created_at (h e)), Rows-mono hash P Q ss k hs)

-- A token without a row.
pub Rows-absent :
    (hash : Text) (P : Text → Type 0) (ss : List Session)
    → any (has_token hash) ss ≡ false
    → Rows hash P ss
Rows-absent hash P [] h = tt
Rows-absent hash P (s ∷ ss) h = ((λ e. cc (h, e)), Rows-absent hash P ss (ground arith))

pub find?-Rows :
    (hash : Text) (P : Text → Type 0) (ss : List Session) (s : Session)
    → find? (has_token hash) ss ≡ some s
    → Rows hash P ss
    → P s.created_at
find?-Rows hash P [] s e h = cc
find?-Rows hash P (r ∷ ss) s e (h, hs) = elim (Bool-cases (has_token hash r)) [
  | inl q ↦ let same : r ≡ s = some-injective (rw q at e) in rw (← same) (h q)
  | inr q ↦ find?-Rows hash P ss s (rw q at e) hs
]
