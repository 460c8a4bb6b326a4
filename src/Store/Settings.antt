-- ===== src/Store/Settings.antt =====
-- internal/store/settings.go: the one row of settings, which the first read seeds.
use openpreflight.Prelude.{true, Option, none, some, pos, []}
use openpreflight.Go.Strings.{codes}
use openpreflight.Store.Models.{Settings}

-- `defaultSettings`.
unfoldable pub default_settings : Settings
default_settings = record {
  public_base_url = [];
  default_check_name = codes "openpreflight";
  default_pipeline_file = codes ".ci.yml";
  default_timeout_seconds = pos 900;
  max_concurrent_jobs = pos 1;
  max_log_bytes = pos 10485760;
  max_workspace_bytes = pos 1073741824;
  log_retention_days = pos 14;
  skip_fork_prs = true;
  default_runtime = [];
}

-- `Settings`: what is read, and the row that is there afterwards.
unfoldable pub settings : Option Settings → Settings × Option Settings
settings none = (default_settings, some default_settings)
settings (some s) = (s, some s)

-- `SaveSettings`: the row is ensured, and then written whole.
unfoldable pub save_settings : Settings → Option Settings → Option Settings
save_settings s row = some s
