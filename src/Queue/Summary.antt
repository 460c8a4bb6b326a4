-- ===== src/Queue/Summary.antt =====
-- internal/queue/summary.go, and `Result.Mark` of internal/executor/executor.go.
pub mod Titles
use openpreflight.Prelude.{
  ℕ, zero, suc, ◌+◌, ◌-◌, ◌*◌, ◌/◌, ◌≡◌, refl, Bool, true, false, not, ◌&&◌, ◌||◌, List, [], ◌∷◌,
  ◌++◌, map, Option, none, some, ℤ, pos, negsuc, pos_part, is_positive, ltb, leb, ◌==◌,
  if◌then◌else◌, is_nil, length, max, ◌>>=◌,
}
use openpreflight.Go.Strings.{Text, codes, str_eq, join, fields}
use openpreflight.Go.Decimal.{itoa}
use openpreflight.Go.Duration.{duration_string}
use openpreflight.Store.Models.{
  skip_reason_path_filter, skip_reason_no_pipeline, skip_reason_fork_disabled,
  skip_reason_fork_no_docker, skip_reason_fork_no_runtime,
}
use openpreflight.Queue.Steps.{Result, ok}

abbrev upper : ℕ → ℕ
upper c = if leb b'a' c && leb c b'z' then c - 32 else c

-- The default case of `checkTitle`: `none` is the panic of `conclusion[:1]` on "".
abbrev capitalised : Text → Option Text
capitalised [] = none
capitalised (c ∷ s) = some (upper c ∷ s)

unfoldable pub check_title : Text → Option Text
check_title conclusion =
    if str_eq conclusion (codes "success")
    then some (codes "Passed")
    else if str_eq conclusion (codes "failure")
    then some (codes "Failed")
    else if str_eq conclusion (codes "timed_out")
    then some (codes "Timed out")
    else if str_eq conclusion (codes "cancelled")
    then some (codes "Cancelled")
    else if str_eq conclusion (codes "skipped")
    then some (codes "Skipped")
    else capitalised conclusion

failing_title : Result → Text
failing_title r =
    if r.timed_out
    then codes "Failed: " ++ (r.name ++ codes " timed out")
    else if is_positive r.exit_code
    then codes "Failed: "
      ++ (r.name ++ (codes " (exit " ++ (itoa (pos_part r.exit_code) ++ codes ")")))
    else codes "Failed: " ++ r.name

first_failure : List Result → Option Text
unfolding failing_title
first_failure [] = none
first_failure (r ∷ rs) = if r.is_skipped || ok r then first_failure rs else some (failing_title r)

abbrev pub or_title : Option Text → Text → Option Text
or_title none conclusion = check_title conclusion
or_title (some title) conclusion = some title

unfoldable pub title_for : Text → List Result → Option Text
unfolding first_failure check_title
title_for conclusion results =
    if not (str_eq conclusion (codes "failure"))
    then check_title conclusion
    else or_title (first_failure results) conclusion

-- `Result.Mark`.
unfoldable pub mark : Result → Text
mark r = if r.is_skipped then 0x2013 ∷ [] else if ok r then 0x2713 ∷ [] else 0x2717 ∷ []

-- `Duration.Round(time.Second)` of a duration that is not negative.
abbrev pub round_second : ℕ → ℕ
round_second d = (d + 500000000) / 1000000000 * 1000000000

unfoldable pub human : Result → Text
human r =
    let d = round_second r.duration in
    if r.is_skipped
    then codes "skipped"
    else if ltb d 1000000000
    then duration_string 1000000000
    else duration_string d

-- The padding of `%-*s` and `%8s`.
unfoldable pub spaces : ℕ → Text
spaces zero = []
spaces (suc n) = b' ' ∷ spaces n

abbrev line_break : Text
line_break = 0x0a ∷ []

unfoldable pub result_line : ℕ → Result → Text
unfolding mark human spaces
result_line width r =
    mark r
    ++ (b' ' ∷ r.name
        ++ (spaces (width - length r.name)
            ++ (b' ' ∷ spaces (8 - length (human r)) ++ (human r ++ line_break))))

-- The width of the names' column, on ASCII names.
abbrev name_width : List Result → ℕ
name_width [] = 0
name_width (r ∷ rs) = max (length r.name) (name_width rs)

abbrev total_duration : List Result → ℕ
total_duration [] = 0
total_duration (r ∷ rs) = r.duration + total_duration rs

unfoldable pub result_lines : ℕ → List Result → Text
unfolding result_line
result_lines width [] = []
result_lines width (r ∷ rs) = result_line width r ++ result_lines width rs

summary_head : Text → List Result → Text
unfolding result_lines
summary_head title results =
    if is_nil results
    then codes "**" ++ (title ++ (codes "**" ++ line_break))
    else codes "```"
      ++ (line_break
          ++ (result_lines (name_width results) results
              ++ (codes "```"
                  ++ (line_break
                      ++ (line_break
                          ++ (codes "**"
                              ++ (title
                                  ++ (codes " in "
                                      ++ (duration_string (round_second (total_duration results))
                                          ++ (codes "**" ++ line_break))))))))))

abbrev summary_note : Text → Text
summary_note note = if is_nil note then [] else line_break ++ (note ++ line_break)

abbrev summary_link : Text → Text
summary_link url =
    if is_nil url
    then []
    else line_break ++ (codes "[View full logs](" ++ (url ++ (codes ")" ++ line_break)))

unfoldable pub summarise : Text → List Result → Text → Text → Option Text
unfolding summary_head check_title
summarise conclusion results note url = check_title conclusion >>= λ title.
    some (summary_head title results ++ (summary_note note ++ summary_link url))

unfoldable pub path_filter_diagnostic : Text → ℕ → ℕ → Bool → Text
unfolding fields join
path_filter_diagnostic filter changed matched allowed =
    codes "Changed files: "
    ++ (itoa changed
        ++ (line_break
            ++ (codes "Matched files: "
                ++ (itoa matched
                    ++ (line_break
                        ++ (codes "Filter: "
                            ++ (join (fields filter) (codes ", ")
                                ++ (line_break
                                    ++ (codes "Result: "
                                        ++ (if allowed then codes "RUN" else codes "SKIP"))))))))))

unfoldable pub skip_explanation : Text → Text
unfolding str_eq
skip_explanation reason =
    if str_eq reason skip_reason_fork_disabled
    then codes
        "Fork pull requests are not run. This repository's checks are disabled for forks because a fork PR would run code from outside your organisation on your server. An operator can allow them by turning off skip_fork_prs and setting default_runtime, which makes fork jobs run in Docker."
    else if str_eq reason skip_reason_fork_no_docker
    then codes
        "Fork pull requests are enabled but no Docker engine is reachable. Fork jobs always run in a container, never as a process on the host, so this one cannot run. Set CI_DOCKER_HOST or mount the engine socket."
    else if str_eq reason skip_reason_fork_no_runtime
    then codes
        "Fork pull requests are enabled but settings.default_runtime is empty. Fork jobs need an image to run in; set one so they have a container to use."
    else if str_eq reason skip_reason_path_filter
    then codes "No changed path matched this binding's path filter."
    else if str_eq reason skip_reason_no_pipeline
    then codes "Nothing to run: no pipeline file, no binding commands, and no recognisable project."
    else codes "Skipped."
