-- ===== src/Api/Settings/Valid.antt =====
-- What the settings satisfy that internal/api/settings.go saves.
use openpreflight.Prelude.{
  ℕ, ◌≤◌, ◌≡◌, ◌≢◌, refl, Bool, true, false, inl, inr, ◌⊎◌, Option, none, some, [], ◌∷◌, ℤ, pos,
  negsuc, pos_part, arith, is_nil,
}
use openpreflight.Go.Strings.{Text, codes}
use openpreflight.Store.Models.{Settings}
use openpreflight.Executor.Image.{valid_image}
use openpreflight.Api.Input.{Input}
use openpreflight.Api.Settings.{
  saved, at_least, or_text, requested_settings, clamped, checked, patch_settings,
}

-- The least values, and what running the pull requests of forks needs.
pub record IsValid (docker_available : Bool) (s : Settings) : Type 0 where
  pub named : s.default_check_name ≢ []
  pub filed : s.default_pipeline_file ≢ []
  pub timeout : 30 ≤ pos_part s.default_timeout_seconds
  pub jobs : 1 ≤ pos_part s.max_concurrent_jobs
  pub log : 4096 ≤ pos_part s.max_log_bytes
  pub retention : 1 ≤ pos_part s.log_retention_days
  pub image : (s.default_runtime ≡ []) ⊎ (valid_image s.default_runtime ≡ true)
  pub forks :
      s.skip_fork_prs ≡ false → (valid_image s.default_runtime ≡ true) × (docker_available ≡ true)

at_least-le : (least : ℕ) (n : ℤ) → least ≤ pos_part (at_least least n)
at_least-le least (pos n) = ground arith
at_least-le least (negsuc n) = omega arith

saved-injective : (t s : Settings) → saved t ≡ saved s → s ≡ t
saved-injective t s h = cc

or_text-ne-nil : (s def : Text) → def ≢ [] → or_text s def ≢ []
or_text-ne-nil [] def h e = h e
or_text-ne-nil (c ∷ s) def h e = cc

checked-saved :
    (docker_available : Bool) (t s : Settings)
    → checked docker_available t ≡ saved s
    → (s ≡ t)
      × ((t.default_runtime ≡ []) ⊎ (valid_image t.default_runtime ≡ true))
      × (t.skip_fork_prs ≡ false
          → (valid_image t.default_runtime ≡ true) × (docker_available ≡ true))
unfolding checked
checked-saved d t s h =
    (ground arith, image (is_nil t.default_runtime) refl, (λ q. (ground arith, ground arith)))
  where
    image :
        (b : Bool)
        → is_nil t.default_runtime ≡ b
        → (t.default_runtime ≡ []) ⊎ (valid_image t.default_runtime ≡ true)
    image true e = inl (ground arith)
    image false e = inr (ground arith)

clamped-IsValid :
    (docker_available : Bool) (r : Settings)
    → ((r.default_runtime ≡ []) ⊎ (valid_image r.default_runtime ≡ true))
    → (r.skip_fork_prs ≡ false → (valid_image r.default_runtime ≡ true) × (docker_available ≡ true))
    → IsValid docker_available (clamped r)
unfolding clamped
clamped-IsValid d r image forks = record {
  named = or_text-ne-nil r.default_check_name (codes "openpreflight") (λ e. absurd (cc));
  filed = or_text-ne-nil r.default_pipeline_file (codes ".ci.yml") (λ e. absurd (cc));
  timeout = at_least-le 30 r.default_timeout_seconds;
  jobs = at_least-le 1 r.max_concurrent_jobs;
  log = at_least-le 4096 r.max_log_bytes;
  retention = at_least-le 1 r.log_retention_days;
  image = image;
  forks = forks;
}

-- What is saved has a check name and a pipeline file, every number at its least value or above, and a
-- runtime that is empty or a valid image. It lets the pull requests of forks run only with a valid image
-- and a working engine. The workspace's limit is what it was.
pub patch_settings-IsValid :
    (docker_available : Bool) (inp : Option Input) (current s : Settings)
    → patch_settings docker_available inp current ≡ saved s
    → IsValid docker_available s × (s.max_workspace_bytes ≡ current.max_workspace_bytes)
unfolding patch_settings
patch_settings-IsValid docker_available none current s h = absurd (cc)
patch_settings-IsValid docker_available (some inp) current s h =
    let t = clamped (requested_settings inp current) in
    let (same, image, forks) = checked-saved docker_available t s h in
    rw same (
      clamped-IsValid docker_available (requested_settings inp current) image forks,
      unfold clamped requested_settings in refl,
    )
