-- ===== src/Pipeline/Timeout/Bounds.antt =====
-- Which timeouts a pipeline file can set.
use openpreflight.Prelude.{
  ℕ, zero, suc, ◌*◌, ◌≤◌, ◌<◌, ◌≡◌, ◌≢◌, refl, true, false, Bool-cases, inl, inr, [], ◌∷◌, ◌++◌,
  Option, none, some, ℤ, pos, negsuc, arith, All-append, is_nil,
}
use openpreflight.Go.Strings.{Text, codes, is_space, trim_space}
use openpreflight.Go.Strings.Trim.{Solid, trim_space-Solid, All-trim_space}
use openpreflight.Go.Duration.{is_digit, max_int64, minute, cut_unit, unit_value, parse_duration}
use openpreflight.Go.Duration.Parse.{
  Digits, value, parse_duration_bound, parse_duration-unit, parse_duration-Digits,
}
use openpreflight.Pipeline.Timeout.{duration, check_positive, parse_timeout}

check_positive_lem :
    (v : Text) (o : Option ℤ) {d : ℕ}
    → check_positive v o ≡ duration d
    → (0 < d) × (o ≡ some (pos d))
unfolding check_positive
check_positive_lem v none h = cc
check_positive_lem v (some (negsuc n)) h = cc
check_positive_lem v (some (pos n)) h = ground arith

parse_timeout_lem :
    (float_scale : ℕ → ℕ → ℕ → ℕ) (text : Text) (d : ℕ)
    → parse_timeout float_scale text ≡ duration d
    → (0 < d) × (parse_duration float_scale (trim_space text) ≡ some (pos d))
unfolding parse_timeout
parse_timeout_lem float_scale text d h = elim (Bool-cases (is_nil (trim_space text))) [
  | inl e ↦ cc (h, e)
  | inr e ↦ check_positive_lem (trim_space text) _ (rw e at h)
]

-- A timeout that is accepted is positive and fits into an int64.
pub parse_timeout_bounds :
    (float_scale : ℕ → ℕ → ℕ → ℕ) (text : Text) (d : ℕ)
    → parse_timeout float_scale text ≡ duration d
    → (0 < d) × (d ≤ max_int64)
parse_timeout_bounds float_scale text d h =
    let (positive, parsed) = parse_timeout_lem float_scale text d h in
    (positive, parse_duration_bound float_scale (trim_space text) d parsed)

-- A text of digits alone, which names no unit, is refused.
pub parse_timeout-Digits :
    (float_scale : ℕ → ℕ → ℕ → ℕ) (text : Text) (d : ℕ)
    → Digits text
    → parse_timeout float_scale text ≢ duration d
parse_timeout-Digits float_scale text zero h e =
    absurd (omega (arith, (parse_timeout_lem float_scale text zero e).0))
parse_timeout-Digits float_scale text (suc d) h e =
    parse_duration-Digits float_scale (trim_space text) d (All-trim_space _ text h)
      (parse_timeout_lem float_scale text (suc d) e).1

digit-not-space : (c : ℕ) → is_digit c ≡ true → is_space c ≡ false
unfolding is_space
digit-not-space c h = ground arith

Digits-Solid : (s : Text) → Digits s → Solid s
Digits-Solid [] h = tt
Digits-Solid (c ∷ s) (hc, hs) = (digit-not-space c hc, Digits-Solid s hs)

check_positive-pos : (v : Text) (n : ℕ) → 0 < n → check_positive v (some (pos n)) ≡ duration n
unfolding check_positive
check_positive-pos v n h = ground arith

minutes-Solid : (s : Text) → Digits s → Solid (s ++ codes "m")
unfolding is_space
minutes-Solid s h = All-append _ s (codes "m") (Digits-Solid s h) (refl, tt)

parse_minutes :
    (float_scale : ℕ → ℕ → ℕ → ℕ) (c : ℕ) (ds : Text)
    → Digits (c ∷ ds)
    → value 0 (c ∷ ds) * minute ≤ max_int64
    → parse_duration float_scale (c ∷ (ds ++ codes "m")) ≡ some (pos (value 0 (c ∷ ds) * minute))
parse_minutes float_scale c ds h fits =
    parse_duration-unit float_scale c ds b'm' [] minute h refl (omega arith)
      (unfold cut_unit in refl) (unfold unit_value in refl) (omega arith) fits

-- Digits and an `m` set that many minutes, if there is at least one and they fit into an int64 of
-- nanoseconds.
pub parse_timeout-minutes :
    (float_scale : ℕ → ℕ → ℕ → ℕ) (c : ℕ) (ds : Text)
    → Digits (c ∷ ds)
    → 0 < value 0 (c ∷ ds)
    → value 0 (c ∷ ds) * minute ≤ max_int64
    → parse_timeout float_scale (c ∷ (ds ++ codes "m")) ≡ duration (value 0 (c ∷ ds) * minute)
unfolding parse_timeout
parse_timeout-minutes float_scale c ds h positive fits =
    rw
      (
        trim_space-Solid (c ∷ (ds ++ codes "m")) (minutes-Solid (c ∷ ds) h),
        parse_minutes float_scale c ds h fits,
      )
      (check_positive-pos _ _ (omega (arith, positive)))
