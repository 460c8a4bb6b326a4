-- ===== src/Logs/Writer.antt =====
-- `Writer` of internal/logs/logs.go. The file is its bytes; how many bytes the disk takes of a write
-- is an argument of the write.
pub mod Prefixes
pub mod Views
pub mod Refinement
pub mod Cap
use openpreflight.Prelude.{
  ℕ, zero, suc, ◌+◌, ◌-◌, ◌≡◌, refl, Bool, true, false, not, ◌&&◌, ◌||◌, List, [], ◌∷◌, ◌++◌,
  Option, none, some, ℤ, pos, is_positive, pos_part, ltb, leb, ◌==◌, if◌then◌else◌, is_nil, length,
  take,
}
use openpreflight.Go.Strings.{Text, codes}
use openpreflight.Go.Decimal.{itoa}
use openpreflight.Logs.Ansi.{filter_bytes}

-- `is_open` is `f != nil`.
pub record Writer : Type 0 where
  pub is_open : Bool
  pub contents : Text
  pub max : ℤ
  pub written : ℕ
  pub overflow : Bool
  pub ansi : Text

-- `Create`, once the file is open and empty.
unfoldable pub create : ℤ → Writer
create max = record {
  is_open = true;
  contents = [];
  max = max;
  written = 0;
  overflow = false;
  ansi = [];
}

-- What a log ends with once it is cut.
unfoldable pub truncation_notice : ℕ → Text
truncation_notice max =
    0x0a
    ∷ 0x0a
    ∷ (codes "--- log truncated at "
        ++ (itoa max ++ (codes " bytes (max_log_bytes) ---" ++ 0x0a ∷ [])))

-- The cap that is in force; `none` is no cap.
abbrev pub cap_of : Writer → Option ℕ
cap_of w = if is_positive w.max then some (pos_part w.max) else none

abbrev pub at_cap : Option ℕ → ℕ → Bool
at_cap none written = false
at_cap (some max) written = leb max written

abbrev pub over_cap : Option ℕ → ℕ → Bool
over_cap none size = false
over_cap (some max) size = ltb max size

abbrev pub fitting : Option ℕ → ℕ → Text → Text
fitting none written chunk = chunk
fitting (some max) written chunk =
    if ltb max (written + length chunk) then take (max - written) chunk else chunk

-- The end of `Write`, for a chunk that is not empty: `room` bytes of it reach the file.
unfoldable pub append_chunk : ℕ → Text → Writer → Writer
append_chunk room chunk w =
    let over = w.overflow || over_cap (cap_of w) (w.written + length chunk) in
    let landed = take room (fitting (cap_of w) w.written chunk) in
    let body = w.contents ++ landed in
    record w {
      is_open = not over;
      contents = (if over then body ++ truncation_notice (pos_part w.max) else body);
      written = w.written + length landed;
      overflow = over;
    }

-- `Writer.Write`. The number of bytes that it reports is the length of `p` on every path.
unfoldable pub write : ℕ → Text → Writer → Writer
write room p w =
    let r = filter_bytes w.ansi p in
    if not w.is_open
    then w
    else if at_cap (cap_of w) w.written
    then w
    else if is_nil r.1
    then record w { ansi = r.0 }
    else append_chunk room r.1 (record w { ansi = r.0 })

unfoldable pub close : Writer → Writer
close w = record w { is_open = false }
