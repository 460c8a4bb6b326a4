-- ===== src/Go/Strings/Fields.antt =====
-- `FieldsFunc` cuts a text into fields, and undoes `Join`.
use openpreflight.Prelude.{
  ℕ, ◌≡◌, refl, sym, ap, ◌∙◌, Bool, true, false, Bool-cases, inl, inr, List, [], ◌∷◌, ◌++◌,
  append-nil, append_assoc, All, All-append, is_nil, if◌then◌else◌,
}
use openpreflight.Go.Strings.{Text, fields_from, fields_func, join}

module _ (p : ℕ → Bool) where
  -- A field: not empty, and with no separator in it.
  abbrev pub IsField : Text → Type 0
  IsField n = (is_nil n ≡ false) × All (λ c. p c ≡ false) n

  abbrev Clear : Text → Type 0
  Clear = All (λ c. p c ≡ false)

  emit-IsField :
      (run : Text) (rest : List Text)
      → Clear run
      → All IsField rest
      → All IsField (if is_nil run then rest else run ∷ rest)
  emit-IsField [] rest h hs = hs
  emit-IsField (c ∷ run) rest h hs = ((refl, h), hs)

  fields_from-IsField : (run s : Text) → Clear run → All IsField (fields_from p run s)
  unfolding fields_from
  fields_from-IsField run [] h = emit-IsField run [] h tt
  fields_from-IsField run (c ∷ s) h = elim (Bool-cases (p c)) [
    | inl e ↦ rw e (emit-IsField run (fields_from p [] s) h (fields_from-IsField [] s tt))
    | inr e ↦ rw e (fields_from-IsField (run ++ c ∷ []) s (All-append _ run (c ∷ []) h (e, tt)))
  ]

  -- What `FieldsFunc` returns are fields.
  pub fields_func-IsField : (s : Text) → All IsField (fields_func p s)
  unfolding fields_func
  fields_func-IsField s = fields_from-IsField [] s tt

  fields_from-Clear :
      (name rest run : Text)
      → Clear name
      → fields_from p run (name ++ rest) ≡ fields_from p (run ++ name) rest
  unfolding fields_from
  fields_from-Clear [] rest run h = rw append-nil
  fields_from-Clear (c ∷ name) rest run (hc, h) = rw hc (
      fields_from-Clear name rest (run ++ c ∷ []) h
      ∙ ap (λ r. fields_from p r rest) (append_assoc run (c ∷ []) name))

  fields_from-sep :
      (c d : ℕ) (run s : Text)
      → p d ≡ true
      → fields_from p (c ∷ run) (d ∷ s) ≡ (c ∷ run) ∷ fields_from p [] s
  unfolding fields_from
  fields_from-sep c d run s h = rw h

  fields_from-join :
      (sep : ℕ) (names : List Text)
      → p sep ≡ true
      → All IsField names
      → fields_from p [] (join names (sep ∷ [])) ≡ names
  unfolding join
  fields_from-join sep [] h hs = unfold fields_from in refl
  fields_from-join sep ([] ∷ names) h ((e, clear), hs) = cc
  fields_from-join sep ((c ∷ n) ∷ []) h ((e, clear), tt') =
      ap (fields_from p []) (sym (append-nil (c ∷ n)))
      ∙ (fields_from-Clear (c ∷ n) [] [] clear ∙ unfold fields_from in refl)
  fields_from-join sep ((c ∷ n) ∷ m ∷ names) h ((e, clear), hs) =
      fields_from-Clear (c ∷ n) (sep ∷ join (m ∷ names) (sep ∷ [])) [] clear
      ∙ (fields_from-sep c sep n (join (m ∷ names) (sep ∷ [])) h
          ∙ ap (λ r. (c ∷ n) ∷ r) (fields_from-join sep (m ∷ names) h hs))

  -- Joining fields by a separator and cutting the text gives the fields back.
  pub fields_func-join :
      (sep : ℕ) (names : List Text)
      → p sep ≡ true
      → All IsField names
      → fields_func p (join names (sep ∷ [])) ≡ names
  unfolding fields_func
  fields_func-join sep names h hs = fields_from-join sep names h hs
