-- ===== src/Logs/Writer/Refinement.antt =====
-- The writer of internal/logs/logs.go against what it promises: the log of a stream is the beginning, up to the
-- cap, of what the filter lets through of the whole stream.
use openpreflight.Prelude.{
  ℕ, ◌+◌, ◌-◌, ◌≤◌, ◌<◌, ◌≡◌, refl, sym, ap, ◌∙◌, true, false, Bool-cases, inl, inr, List, [], ◌∷◌,
  ◌++◌, pos, arith, length, length-append, take, is_nil, ltb, ltb→lt, All, append-nil, append_assoc,
}
use openpreflight.Go.Strings.{Text}
use openpreflight.Logs.Ansi.{esc_cap, filter_bytes}
use openpreflight.Logs.Ansi.Streams.{filter_bytes-Filtered}
use openpreflight.Logs.Writer.Prefixes.{take-append_shorter, take_all, length-take_room}
use openpreflight.Logs.Writer.Views.{
  through, carried, IsWhole, Shows, through-append, carried-append, full-Shows, cut-Shows,
}
use openpreflight.Logs.Writer.{Writer, create, truncation_notice, append_chunk, write}

-- A writer that is open and holds `t`.
abbrev holding : ℕ → Text → Text → Writer
holding max t a = record {
  is_open = true;
  contents = t;
  max = pos max;
  written = length t;
  overflow = false;
  ansi = a;
}

append_chunk-fits :
    (max room : ℕ) (t a k : Text)
    → 0 < max
    → length t + length k ≤ max
    → length k ≤ room
    → append_chunk room k (holding max t a) ≡ holding max (t ++ k) a
unfolding append_chunk
append_chunk-fits max room t a k positive le big =
    ground (arith, take_all room k big, length-append t k)

append_chunk-cuts :
    (max room : ℕ) (t a k : Text)
    → 0 < max
    → max < length t + length k
    → length k ≤ room
    → append_chunk room k (holding max t a) ≡ record {
      is_open = false;
      contents = (t ++ take (max - length t) k) ++ truncation_notice max;
      max = pos max;
      written = length t + length (take (max - length t) k);
      overflow = true;
      ansi = a;
    }
unfolding append_chunk
append_chunk-cuts max room t a k positive lt big =
    ground (
      arith,
      take_all room (take (max - length t) k) (length-take_room (max - length t) room k big),
    )

-- A write while all of the stream is in the file: nothing new comes through, or a chunk does.
module _ (max room : ℕ) (s p : Text) (w : Writer) (positive : 0 < max) (l : IsWhole max s w) where
  abbrev chunk : Text
  chunk = (filter_bytes (carried s) p).1

  whole_quiet :
      is_nil chunk ≡ true → write room p w ≡ record w { ansi = (filter_bytes (carried s) p).0 }
  unfolding write
  whole_quiet e = ground (arith, ap (λ a. filter_bytes a p) l.carry)

  whole_chunk :
      is_nil chunk ≡ false
      → write room p w
        ≡ append_chunk room chunk (record w { ansi = (filter_bytes (carried s) p).0 })
  unfolding write
  whole_chunk e = ground (arith, ap (λ a. filter_bytes a p) l.carry)

  -- The writer that a chunk is appended to.
  abbrev w' : Writer
  w' = record w { ansi = (filter_bytes (carried s) p).0 }

  all_through : through (s ++ p) ≡ through s ++ chunk
  all_through = through-append s p

  as_holding : w' ≡ holding max (through s) (carried (s ++ p))
  as_holding = ground (arith, carried-append s p)

  size_through : length (through (s ++ p)) ≡ length (through s) + length chunk
  size_through = ap length all_through ∙ length-append (through s) chunk

  fits :
      length (through s) + length chunk ≤ max
      → length chunk ≤ room
      → append_chunk room chunk w' ≡ holding max (through (s ++ p)) (carried (s ++ p))
  fits le big =
      ap (append_chunk room chunk) as_holding
      ∙ (append_chunk-fits max room (through s) (carried (s ++ p)) chunk positive le big
          ∙ ap (λ t. holding max t (carried (s ++ p))) (sym all_through))

  fits-Shows :
      length (through s) + length chunk ≤ max
      → length chunk ≤ room
      → Shows max (s ++ p) (append_chunk room chunk w')
  fits-Shows le big = elim (Bool-cases (ltb (length (through s) + length chunk) max)) [
    | inl e ↦ rw (fits le big) (
        inl (record {
          capped = refl;
          open_file = refl;
          not_cut = refl;
          carry = refl;
          holds = refl;
          counted = refl;
          below = ground (arith, size_through, e);
        }))
    | inr e ↦ rw (fits le big) (
        inr (
          inl (record {
            capped = refl;
            open_file = refl;
            not_cut = refl;
            holds = sym (take_all max (through (s ++ p)) (omega (arith, size_through, le)));
            counted = ground (arith, size_through, e, le);
            enough = ground (arith, size_through, e, le);
          })))
  ]

  cuts-Shows :
      max < length (through s) + length chunk
      → length chunk ≤ room
      → Shows max (s ++ p) (append_chunk room chunk w')
  cuts-Shows lt big =
      let cut =
        ap (append_chunk room chunk) as_holding
        ∙ append_chunk-cuts max room (through s) (carried (s ++ p)) chunk positive lt big in
      rw cut (
        inr (
          inr (record {
            capped = refl;
            shut = refl;
            cut = refl;
            holds =
                ap (λ t. t ++ truncation_notice max)
                  (sym (
                    ap (take max) all_through
                    ∙ take-append_shorter max (through s) chunk (omega (arith, l.below))));
            more = omega (arith, size_through, lt);
          })))

  chunk-Shows : length chunk ≤ room → Shows max (s ++ p) (append_chunk room chunk w')
  chunk-Shows big = elim (Bool-cases (ltb max (length (through s) + length chunk))) [
    | inl e ↦ cuts-Shows (ltb→lt _ _ e) big
    | inr e ↦ fits-Shows (ground arith) big
  ]

  whole-Shows : length p ≤ room → Shows max (s ++ p) (write room p w)
  whole-Shows big = elim (Bool-cases (is_nil chunk)) [
    | inl e ↦
        rw (whole_quiet e, as_holding)
          (inl (record {
            capped = refl;
            open_file = refl;
            not_cut = refl;
            carry = refl;
            holds = ground (arith, all_through, nothing chunk e, append-nil (through s));
            counted = omega (arith, size_through, ap length (nothing chunk e));
            below = omega (arith, size_through, ap length (nothing chunk e), l.below);
          }))
    | inr e ↦
        rw (whole_chunk e)
          (chunk-Shows (omega (arith, (filter_bytes-Filtered (carried s) p held).shorter)))
  ]
    where
      held : length (carried s) < esc_cap
      held = (filter_bytes-Filtered [] s (omega arith)).bounded

      nothing : (t : Text) → is_nil t ≡ true → t ≡ []
      nothing t h = ground (arith, h)

write-Shows :
    (max room : ℕ) (s p : Text) (w : Writer)
    → 0 < max
    → length p ≤ room
    → Shows max s w
    → Shows max (s ++ p) (write room p w)
write-Shows max room s p w positive big (inl l) = whole-Shows max room s p w positive l big
write-Shows max room s p w positive big (inr (inl l)) = full-Shows max room s p w positive l
write-Shows max room s p w positive big (inr (inr l)) = cut-Shows max room s p w l

-- The writes of a job, each with the room that the disk has for it.
pub writes : List (ℕ × Text) → Writer → Writer
writes [] w = w
writes ((room, p) ∷ ps) w = writes ps (write room p w)

abbrev pub stream : List (ℕ × Text) → Text
stream [] = []
stream ((room, p) ∷ ps) = p ++ stream ps

writes-Shows :
    (max : ℕ) (ps : List (ℕ × Text)) (s : Text) (w : Writer)
    → 0 < max
    → All (λ (q : ℕ × Text). length q.1 ≤ q.0) ps
    → Shows max s w
    → Shows max (s ++ stream ps) (writes ps w)
unfolding writes
writes-Shows max [] s w positive big h = rw (append-nil s) h
writes-Shows max ((room, p) ∷ ps) s w positive (b, bs) h = rw (← append_assoc s p (stream ps)) (
    writes-Shows max ps (s ++ p) (write room p w) positive bs
      (write-Shows max room s p w positive b h))

-- What a log under a cap shows of a stream: all that the filter lets through of it; or its beginning
-- up to the cap; or that and the notice, if more came than the cap allows.
pub data LogOf (max : ℕ) (t : Text) (w : Writer) : Type 0 where
  whole : w.contents ≡ t → length t < max → LogOf max t w
  full : w.contents ≡ take max t → max ≤ length t → w.overflow ≡ false → LogOf max t w
  cut :
      w.contents ≡ take max t ++ truncation_notice max
      → max < length t
      → w.overflow ≡ true
      → LogOf max t w

Shows-LogOf : (max : ℕ) (s : Text) (w : Writer) → Shows max s w → LogOf max (through s) w
Shows-LogOf max s w (inl l) = whole l.holds l.below
Shows-LogOf max s w (inr (inl l)) = full l.holds l.enough l.not_cut
Shows-LogOf max s w (inr (inr l)) = cut l.holds l.more l.cut

-- Under a cap, and if the disk takes every write, the log refines the stream of all that was written:
-- it holds what the filter lets through of the whole stream, however it was cut into writes, up to
-- the cap, and the notice behind it only if there was more.
pub writes-LogOf :
    (max : ℕ) (ps : List (ℕ × Text))
    → 0 < max
    → All (λ (q : ℕ × Text). length q.1 ≤ q.0) ps
    → LogOf max (through (stream ps)) (writes ps (create (pos max)))
unfolding create filter_bytes
writes-LogOf max ps positive big = Shows-LogOf max (stream ps) (writes ps (create (pos max))) (
    writes-Shows max ps [] (create (pos max)) positive big (
      inl (record {
        capped = refl;
        open_file = refl;
        not_cut = refl;
        carry = refl;
        holds = refl;
        counted = refl;
        below = positive;
      })))
