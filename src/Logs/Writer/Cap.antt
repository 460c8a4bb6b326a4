-- ===== src/Logs/Writer/Cap.antt =====
-- What a log file holds.
use openpreflight.Prelude.{
  ℕ, ◌≤◌, ◌<◌, ◌≡◌, refl, true, false, [], ◌++◌, ℤ, is_positive, pos_part, arith, length, take,
  if◌then◌else◌,
}
use openpreflight.Go.Strings.{Text}
use openpreflight.Logs.Ansi.{esc_cap}
use openpreflight.Logs.Ansi.Streams.{Plain}
use openpreflight.Logs.Writer.{Writer, create, truncation_notice}

-- The log that was written, and behind it the notice once the log is cut.
pub record IsLog (w : Writer) : Type 0 where
  pub body : Text
  pub holds : w.contents ≡ (if w.overflow then body ++ truncation_notice (pos_part w.max) else body)
  pub counted : length body ≡ w.written
  pub capped : is_positive w.max ≡ true → w.written ≤ pos_part w.max
  pub plain : Plain body
  pub cut_is_closed : w.overflow ≡ true → w.is_open ≡ false
  pub bounded : length w.ansi < esc_cap

pub create-IsLog : (max : ℤ) → IsLog (create max)
unfolding create
create-IsLog max = record {
  body = [];
  holds = refl;
  counted = refl;
  capped = λ h. omega arith;
  plain = tt;
  cut_is_closed = λ h. cc;
  bounded = omega arith;
}

-- The log `w'` that a write of the text `chunk` leaves of the log `w`, if `room` bytes reach the file:
-- behind the body there is a beginning of the chunk, and all of it if nothing is in the way.
pub record Appends (room : ℕ) (w : Writer) (l : IsLog w) (chunk : Text) (w' : Writer) : Type 0 where
  pub log : IsLog w'
  pub taken : ℕ
  pub longer : log.body ≡ l.body ++ take taken chunk
  pub all :
      w.is_open ≡ true
      → is_positive w.max ≡ false
      → length chunk ≤ room
      → log.body ≡ l.body ++ chunk
