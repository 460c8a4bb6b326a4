-- ===== src/Logs/Ansi/Streams.antt =====
-- The filter on a stream of writes.
use openpreflight.Prelude.{
  ◌<◌, ◌≤◌, ◌≡◌, ◌≢◌, refl, sym, ◌∙◌, false, Bool-cases, inl, inr, [], ◌∷◌, ◌++◌, arith, ◌==◌, any,
  length, All, leb, ◌||◌,
}
use openpreflight.Go.Strings.{Text}
use openpreflight.Logs.Ansi.{esc_cap, esc_byte, is_done, held, filter_loop, filter_bytes}

filter_loop-plain : (p : Text) → any (λ c. c == esc_byte) p ≡ false → filter_loop [] p ≡ ([], p)
unfolding filter_loop
filter_loop-plain [] h = refl
filter_loop-plain (c ∷ p) h = ground (arith, filter_loop-plain p)

filter_bytes-plain : (p : Text) → any (λ c. c == esc_byte) p ≡ false → filter_bytes [] p ≡ ([], p)
unfolding filter_bytes
filter_bytes-plain p h = rw h

-- The shortcut changes nothing.
pub filter_bytes-loop : (esc p : Text) → filter_bytes esc p ≡ filter_loop esc p
filter_bytes-loop (e ∷ esc) p = unfold filter_bytes in refl
filter_bytes-loop [] p = elim (Bool-cases (any (λ c. c == esc_byte) p)) [
  | inl e ↦ unfold filter_bytes in rw e
  | inr e ↦ filter_bytes-plain p e ∙ sym (filter_loop-plain p e)
]

filter_loop-append :
    (esc p q : Text)
    → filter_loop esc (p ++ q) ≡ (
      (filter_loop (filter_loop esc p).0 q).0,
      (filter_loop esc p).1 ++ (filter_loop (filter_loop esc p).0 q).1,
    )
unfolding filter_loop
filter_loop-append esc [] q = refl
filter_loop-append [] (c ∷ p) q = elim (Bool-cases (c == esc_byte)) [
  | inl e ↦ rw e (filter_loop-append (c ∷ []) p q)
  | inr e ↦ rw (e, filter_loop-append [] p q)
]
filter_loop-append (e ∷ esc) (c ∷ p) q = filter_loop-append (held (e ∷ (esc ++ c ∷ []))) p q

-- How a stream is cut into writes does not change what is let through, nor what is held at its end.
pub filter_bytes-append :
    (esc p q : Text)
    → filter_bytes esc (p ++ q) ≡ (
      (filter_bytes (filter_bytes esc p).0 q).0,
      (filter_bytes esc p).1 ++ (filter_bytes (filter_bytes esc p).0 q).1,
    )
filter_bytes-append esc p q = simp filter_bytes-loop (filter_loop-append esc p q)

-- No byte of a text is ESC.
abbrev pub Plain : Text → Type 0
Plain = All (λ c. c ≢ esc_byte)

-- What the filter is at after a write: less than the cap is held, no ESC was let through, and no
-- more bytes than came in.
pub record Filtered (p : Text) (r : Text × Text) : Type 0 where
  pub bounded : length r.0 < esc_cap
  pub plain : Plain r.1
  pub shorter : length r.1 ≤ length p

held-bounded : (esc : Text) → length (held esc) < esc_cap
unfolding held
held-bounded esc = elim (Bool-cases (is_done esc || leb esc_cap (length esc))) [
  | inl e ↦ rw e (omega arith)
  | inr e ↦ rw e (ground (arith, e))
]

filter_loop-Filtered : (esc p : Text) → length esc < esc_cap → Filtered p (filter_loop esc p)
unfolding filter_loop
filter_loop-Filtered esc [] h = record { bounded = h; plain = tt; shorter = omega arith }
filter_loop-Filtered [] (c ∷ p) h = elim (Bool-cases (c == esc_byte)) [
  | inl e ↦
      let r = filter_loop-Filtered (c ∷ []) p (omega arith) in
      rw e (record { bounded = r.bounded; plain = r.plain; shorter = omega (arith, r.shorter) })
  | inr e ↦
      let r = filter_loop-Filtered [] p h in
      rw e (record {
        bounded = r.bounded;
        plain = (ground (arith, e), r.plain);
        shorter = omega (arith, r.shorter);
      })
]
filter_loop-Filtered (e ∷ esc) (c ∷ p) h =
    let next = held (e ∷ (esc ++ c ∷ [])) in
    let r = filter_loop-Filtered next p (held-bounded (e ∷ (esc ++ c ∷ []))) in
    record { bounded = r.bounded; plain = r.plain; shorter = omega (arith, r.shorter) }

-- A write keeps less than the cap of bytes held back, lets no ESC through, and adds no bytes.
pub filter_bytes-Filtered : (esc p : Text) → length esc < esc_cap → Filtered p (filter_bytes esc p)
filter_bytes-Filtered esc p h = rw filter_bytes-loop (filter_loop-Filtered esc p h)
