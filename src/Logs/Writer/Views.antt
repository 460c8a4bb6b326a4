-- ===== src/Logs/Writer/Views.antt =====
-- What a log of internal/logs/logs.go shows of a stream: all of it, its beginning up to the cap, or that
-- with the notice; and how a log that is full or cut stays.
use openpreflight.Prelude.{
  ℕ, ◌≤◌, ◌<◌, ◌≡◌, sym, ap, ◌∙◌, true, false, inl, inr, ◌⊎◌, [], ◌++◌, pos, arith, length,
  length-append, take,
}
use openpreflight.Go.Strings.{Text}
use openpreflight.Logs.Ansi.{filter_bytes}
use openpreflight.Logs.Ansi.Streams.{filter_bytes-append}
use openpreflight.Logs.Writer.Prefixes.{take-append_longer}
use openpreflight.Logs.Writer.{Writer, truncation_notice, write}

-- What the filter lets through of a whole stream, and what it holds at its end.
abbrev pub through : Text → Text
through s = (filter_bytes [] s).1

abbrev pub carried : Text → Text
carried s = (filter_bytes [] s).0

-- The cap is `max`, and a part of the stream reached the file: all that was let through, ...
pub record IsWhole (max : ℕ) (s : Text) (w : Writer) : Type 0 where
  pub capped : w.max ≡ pos max
  pub open_file : w.is_open ≡ true
  pub not_cut : w.overflow ≡ false
  pub carry : w.ansi ≡ carried s
  pub holds : w.contents ≡ through s
  pub counted : w.written ≡ length (through s)
  pub below : length (through s) < max

-- ... or as much as the cap allows, to the byte, ...
pub record IsFull (max : ℕ) (s : Text) (w : Writer) : Type 0 where
  pub capped : w.max ≡ pos max
  pub open_file : w.is_open ≡ true
  pub not_cut : w.overflow ≡ false
  pub holds : w.contents ≡ take max (through s)
  pub counted : w.written ≡ max
  pub enough : max ≤ length (through s)

-- ... or that and the notice, once a write went over the cap.
pub record IsCut (max : ℕ) (s : Text) (w : Writer) : Type 0 where
  pub capped : w.max ≡ pos max
  pub shut : w.is_open ≡ false
  pub cut : w.overflow ≡ true
  pub holds : w.contents ≡ take max (through s) ++ truncation_notice max
  pub more : max < length (through s)

abbrev pub Shows : ℕ → Text → Writer → Type 0
Shows max s w = IsWhole max s w ⊎ IsFull max s w ⊎ IsCut max s w

pub through-append : (s p : Text) → through (s ++ p) ≡ through s ++ (filter_bytes (carried s) p).1
through-append s p = ap (λ (r : Text × Text). r.1) (filter_bytes-append [] s p)

pub carried-append : (s p : Text) → carried (s ++ p) ≡ (filter_bytes (carried s) p).0
carried-append s p = ap (λ (r : Text × Text). r.0) (filter_bytes-append [] s p)

full_stays :
    (max room : ℕ) (s p : Text) (w : Writer) → 0 < max → IsFull max s w → write room p w ≡ w
unfolding write
full_stays max room s p w positive l = ground arith

cut_stays : (max room : ℕ) (s p : Text) (w : Writer) → IsCut max s w → write room p w ≡ w
unfolding write
cut_stays max room s p w l = ground arith

-- Beyond the cap more of a stream changes nothing.
take-through :
    (max : ℕ) (s p : Text)
    → max ≤ length (through s)
    → (take max (through (s ++ p)) ≡ take max (through s))
      × (length (through s) ≤ length (through (s ++ p)))
take-through max s p h = rw (through-append s p) (
  take-append_longer max (through s) _ h,
  omega (arith, length-append (through s) (filter_bytes (carried s) p).1),
)

pub full-Shows :
    (max room : ℕ) (s p : Text) (w : Writer)
    → 0 < max
    → IsFull max s w
    → Shows max (s ++ p) (write room p w)
full-Shows max room s p w positive l =
    let (same, longer) = take-through max s p l.enough in
    rw (full_stays max room s p w positive l) (
      inr (
        inl (record {
          capped = l.capped;
          open_file = l.open_file;
          not_cut = l.not_cut;
          holds = l.holds ∙ sym same;
          counted = l.counted;
          enough = omega (arith, l.enough, longer);
        })))

pub cut-Shows :
    (max room : ℕ) (s p : Text) (w : Writer) → IsCut max s w → Shows max (s ++ p) (write room p w)
cut-Shows max room s p w l =
    let (same, longer) = take-through max s p (omega (arith, l.more)) in
    rw (cut_stays max room s p w l) (
      inr (
        inr (record {
          capped = l.capped;
          shut = l.shut;
          cut = l.cut;
          holds = l.holds ∙ ap (λ t. t ++ truncation_notice max) (sym same);
          more = omega (arith, l.more, longer);
        })))
