-- ===== src/Store/Clock.antt =====
-- The timestamps of internal/store/store.go: `formatTime`, whose text is what SQL compares.
pub mod Order
use openpreflight.Prelude.{ℕ, [], ◌++◌}
use openpreflight.Go.Strings.{Text, codes}
use openpreflight.Go.Duration.{fraction_digits}

-- A time in UTC: the whole seconds, and the nanoseconds below a second.
pub record Time : Type 0 where
  pub seconds : ℕ
  pub nanos : ℕ

-- time.RFC3339Nano: the date and the time of day up to the second, then the fraction without the
-- zeros at its end, and no point if nothing is left of it. `date_text` is Go's layout up to there.
unfoldable pub format_time : (ℕ → Text) → Time → Text
format_time date_text t = date_text t.seconds ++ (fraction_digits 9 t.nanos [] ++ codes "Z")
