-- ===== src/Pipeline/Timeout.antt =====
-- `ParseDuration` of internal/pipeline/pipeline.go.
pub mod Bounds
use openpreflight.Prelude.{ℕ, Option, none, some, ℤ, pos, negsuc, is_nil, if◌then◌else◌, ◌==◌}
use openpreflight.Go.Strings.{Text, trim_space}
use openpreflight.Go.Duration.{parse_duration}
use openpreflight.Pipeline.Types.{DurationError, empty_duration, not_a_duration, not_positive}

pub data DurationResult : Type 0 where
  duration : ℕ → DurationResult
  refused : DurationError → DurationResult

-- The test `d <= 0`.
check_positive : Text → Option ℤ → DurationResult
check_positive v none = refused (not_a_duration v)
check_positive v (some (negsuc d)) = refused (not_positive v)
check_positive v (some (pos d)) = if d == 0 then refused (not_positive v) else duration d

-- The model of pipeline.ParseDuration.
unfoldable pub parse_timeout : (ℕ → ℕ → ℕ → ℕ) → Text → DurationResult
unfolding check_positive
parse_timeout float_scale text =
    let v = trim_space text in
    if is_nil v then refused empty_duration else check_positive v (parse_duration float_scale v)
