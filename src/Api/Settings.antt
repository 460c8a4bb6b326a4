-- ===== src/Api/Settings.antt =====
-- internal/api/settings.go: the PATCH of the settings. The engine's probe is an argument.
pub mod Valid
use openpreflight.Prelude.{
  ℕ, Bool, true, false, not, ◌&&◌, ◌||◌, List, [], ◌∷◌, Option, none, some, ℤ, pos, negsuc,
  pos_part, leb, ltb, ◌==◌, if◌then◌else◌, is_nil,
}
use openpreflight.Go.Strings.{Text, codes, str_eq, trim_space, trim_right}
use openpreflight.Store.Models.{Settings}
use openpreflight.Executor.Image.{valid_image}
use openpreflight.Api.Input.{Input, is_json, str, has, int, bool}

pub data Patched : Type 0 where
  saved : Settings → Patched
  bad_input invalid_image runtime_required docker_required : Patched

-- `max(n, least)`.
abbrev pub at_least : ℕ → ℤ → ℤ
at_least least (pos n) = if ltb n least then pos least else pos n
at_least least (negsuc n) = pos least

-- What the request sets, before the defaults and the least values.
unfoldable pub requested_settings : Input → Settings → Settings
requested_settings inp s = record {
  public_base_url =
      (if has (codes "public_base_url") inp
        then trim_right (λ c. c == b'/') (str (codes "public_base_url") inp)
        else s.public_base_url);
  default_check_name =
      (if has (codes "default_check_name") inp
        then str (codes "default_check_name") inp
        else s.default_check_name);
  default_pipeline_file =
      (if has (codes "default_pipeline_file") inp
        then str (codes "default_pipeline_file") inp
        else s.default_pipeline_file);
  default_timeout_seconds = int (codes "default_timeout_seconds") s.default_timeout_seconds inp;
  max_concurrent_jobs = int (codes "max_concurrent_jobs") s.max_concurrent_jobs inp;
  max_log_bytes = int (codes "max_log_bytes") s.max_log_bytes inp;
  max_workspace_bytes = s.max_workspace_bytes;
  log_retention_days = int (codes "log_retention_days") s.log_retention_days inp;
  skip_fork_prs =
      (if has (if is_json inp then codes "skip_fork_prs" else codes "max_concurrent_jobs") inp
        then bool (codes "skip_fork_prs") inp
        else s.skip_fork_prs);
  default_runtime =
      (if has (codes "default_runtime") inp
        then trim_space (str (codes "default_runtime") inp)
        else s.default_runtime);
}

abbrev pub or_text : Text → Text → Text
or_text s def = if is_nil s then def else s

unfoldable pub clamped : Settings → Settings
clamped s = record s {
  default_check_name = or_text s.default_check_name (codes "openpreflight");
  default_pipeline_file = or_text s.default_pipeline_file (codes ".ci.yml");
  default_timeout_seconds = at_least 30 s.default_timeout_seconds;
  max_concurrent_jobs = at_least 1 s.max_concurrent_jobs;
  max_log_bytes = at_least 4096 s.max_log_bytes;
  log_retention_days = at_least 1 s.log_retention_days;
}

-- The checks at the end, and what is saved.
unfoldable pub checked : Bool → Settings → Patched
checked docker_available s =
    if not (is_nil s.default_runtime) && not (valid_image s.default_runtime)
    then invalid_image
    else if s.skip_fork_prs
    then saved s
    else if is_nil s.default_runtime
    then runtime_required
    else if not docker_available
    then docker_required
    else saved s

-- `patchSettings`; an input that cannot be read is `none`.
unfoldable pub patch_settings : Bool → Option Input → Settings → Patched
unfolding checked clamped requested_settings
patch_settings docker_available none current = bad_input
patch_settings docker_available (some inp) current =
    checked docker_available (clamped (requested_settings inp current))

-- `settingsNext`.
unfoldable pub settings_next : Input → Text
settings_next inp =
    let page = str (codes "next") inp in
    if str_eq page (codes "/settings")
      || (str_eq page (codes "/settings/runner") || str_eq page (codes "/settings/logs"))
    then page
    else codes "/settings"
