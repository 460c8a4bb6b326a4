-- ===== src/Api/Auth/Budget.antt =====
-- How many sign-in attempts the limiter of internal/api/auth.go lets through.
use openpreflight.Prelude.{
  ℕ, suc, ◌+◌, ◌-◌, ◌*◌, ◌≤◌, ◌<◌, ◌≡◌, refl, Bool, true, false, List, [], ◌∷◌, Option, none, some,
  if◌then◌else◌, arith, All,
}
use openpreflight.Go.Strings.{Text, str_eq, str_eq_iff}
use openpreflight.Api.Auth.{
  LoginLimiter, minute, login_attempts_per_minute, count_of, increment, window, in_window, allow,
  clear, remove,
}

-- What reaches the limiter: an attempt of an address at a time, or an address that has signed in.
pub data LoginEvent : Type 0 where
  attempt : ℕ → Text → LoginEvent
  signed_in : Text → LoginEvent

abbrev counted : Bool → ℕ → ℕ
counted true n = suc n
counted false n = n

-- How many attempts of `addr` are let through.
unfoldable pub passed : Text → List LoginEvent → LoginLimiter → ℕ
passed addr [] l = 0
passed addr (attempt now a ∷ es) l =
    let r = allow now a l in
    let rest = passed addr es r.2 in if str_eq a addr then counted r.0 rest else rest
passed addr (signed_in a ∷ es) l = passed addr es (clear a l)

-- Attempts at times of one minute, and no sign-in of the address.
abbrev pub InMinute : ℕ → Text → LoginEvent → Type 0
InMinute from addr (attempt now a) = (from ≤ now) × (now < from + minute)
InMinute from addr (signed_in a) = str_eq a addr ≡ false

count_of-increment :
    (addr a : Text) (counts : List (Text × ℕ))
    → count_of addr (increment a counts)
      ≡ (if str_eq a addr then suc (count_of addr counts) else count_of addr counts)
unfolding increment
count_of-increment addr a [] = ground arith
count_of-increment addr a ((b, n) ∷ rest) =
    ground
      (arith, count_of-increment addr a rest, str_eq_iff a addr, str_eq_iff b addr, str_eq_iff b a)

count_of-remove :
    (addr a : Text) (counts : List (Text × ℕ))
    → str_eq a addr ≡ false
    → count_of addr (remove a counts) ≡ count_of addr counts
unfolding remove
count_of-remove addr a [] h = refl
count_of-remove addr a ((b, n) ∷ rest) h =
    ground
      (arith, count_of-remove addr a rest, str_eq_iff a addr, str_eq_iff b addr, str_eq_iff b a)

-- Within a window the rest of the budget bounds what is let through.
window_bound :
    (addr : Text) (from start : ℕ) (counts : List (Text × ℕ)) (es : List LoginEvent)
    → from ≤ start
    → All (InMinute from addr) es
    → passed addr es (record { start = start; counts = some counts })
      ≤ login_attempts_per_minute - count_of addr counts
unfolding passed allow window in_window clear
window_bound addr from start counts [] h t = omega arith
window_bound addr from start counts (attempt now a ∷ es) h (t, ts) = ground (
  arith,
  count_of-increment addr a counts,
  str_eq_iff a addr,
  window_bound addr from start (increment a counts) es h ts,
)
window_bound addr from start counts (signed_in a ∷ es) h (t, ts) =
    ground (
      arith,
      count_of-remove addr a counts t,
      window_bound addr from start (remove a counts) es h ts,
    )

fresh_window :
    (addr a : Text) (from now : ℕ) (es : List LoginEvent)
    → from ≤ now
    → All (InMinute from addr) es
    → passed addr es (record { start = now; counts = some (increment a []) })
      ≤ login_attempts_per_minute - (if str_eq a addr then 1 else 0)
fresh_window addr a from now es h ts =
    ground
      (arith, count_of-increment addr a [], window_bound addr from now (increment a []) es h ts)

two_windows :
    (addr : Text) (from start : ℕ) (counts : List (Text × ℕ)) (es : List LoginEvent)
    → All (InMinute from addr) es
    → passed addr es (record { start = start; counts = some counts })
      ≤ login_attempts_per_minute - count_of addr counts + login_attempts_per_minute
unfolding passed allow window in_window clear
two_windows addr from start counts [] t = omega arith
two_windows addr from start counts (attempt now a ∷ es) (t, ts) = ground (
  arith,
  count_of-increment addr a counts,
  count_of-increment addr a [],
  str_eq_iff a addr,
  fresh_window addr a from now es t.0 ts,
  two_windows addr from start (increment a counts) es ts,
)
two_windows addr from start counts (signed_in a ∷ es) (t, ts) =
    ground
      (arith, count_of-remove addr a counts t, two_windows addr from start (remove a counts) es ts)

no_window :
    (addr : Text) (from start : ℕ) (es : List LoginEvent)
    → All (InMinute from addr) es
    → passed addr es (record { start = start; counts = none }) ≤ login_attempts_per_minute
unfolding passed allow window in_window clear
no_window addr from start [] t = omega arith
no_window addr from start (attempt now a ∷ es) (t, ts) =
    ground (
      arith,
      count_of-increment addr a [],
      str_eq_iff a addr,
      fresh_window addr a from now es t.0 ts,
    )
no_window addr from start (signed_in a ∷ es) (t, ts) = no_window addr from start es ts

any_limiter :
    (addr : Text) (from start : ℕ) (es : List LoginEvent) (c : Option (List (Text × ℕ)))
    → All (InMinute from addr) es
    → passed addr es (record { start = start; counts = c }) ≤ 2 * login_attempts_per_minute
any_limiter addr from start es none t = omega (arith, no_window addr from start es t)
any_limiter addr from start es (some counts) t =
    omega (arith, two_windows addr from start counts es t)

-- In any minute, wherever it lies against the limiter's windows, at most ten attempts of one address
-- that does not sign in are let through, however often and with whatever others it tries.
pub passed_bound :
    (addr : Text) (from : ℕ) (es : List LoginEvent) (l : LoginLimiter)
    → All (InMinute from addr) es
    → passed addr es l ≤ 2 * login_attempts_per_minute
passed_bound addr from es l t = any_limiter addr from l.start es l.counts t
