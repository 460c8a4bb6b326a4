-- ===== src/Go/FilePath/Clean.antt =====
-- A cleaned relative path that does not begin with `..` has no `..` in it.
use mathlib.Core.List.{reverse-cons}
use openpreflight.Prelude.{
  ◌≡◌, ◌≢◌, refl, ◌⊎◌, inl, inr, true, false, Bool-cases, List, [], ◌∷◌, ◌++◌, reverse, All,
  All-append,
}
use openpreflight.Go.Strings.{Text, codes, str_eq, str_eq_iff, has_prefix, has_prefix-append, join}
use openpreflight.Go.Strings.Trim.{All-reverse_list}
use openpreflight.Go.Strings.Fields.{IsField, fields_func-IsField, fields_func-join}
use openpreflight.Go.FilePath.{
  slash, is_slash, parent, segments, go_up, push_name, resolve_names, render, cleaned, is_abs,
  clean,
}

-- A name between slashes: not empty, and with no slash in it.
abbrev IsName : Text → Type 0
IsName = IsField is_slash

parent-IsName : IsName parent
parent-IsName = (refl, (refl, (refl, tt)))

-- Names first, then any number of `..`: the nearest name is the first.
abbrev IsStack : List Text → Type 0
IsStack [] = Unit
IsStack (n ∷ below) = ((n ≡ parent) × All (λ m. m ≡ parent) below) ⊎ ((n ≢ parent) × IsStack below)

go_up-IsStack : (stack : List Text) → IsStack stack → IsStack (go_up false stack)
unfolding go_up
go_up-IsStack [] h = inl (refl, tt)
go_up-IsStack (top ∷ below) (inl (e, all)) = rw e (inl (refl, (refl, all)))
go_up-IsStack (top ∷ below) (inr (ne, h)) = elim (Bool-cases (str_eq top parent)) [
  | inl e ↦ absurd (ne ((str_eq_iff top parent).0 e))
  | inr e ↦ rw e h
]

push_name-IsStack :
    (stack : List Text) (name : Text) → IsStack stack → IsStack (push_name false stack name)
unfolding push_name
push_name-IsStack stack name h = elim (Bool-cases (str_eq name (codes "."))) [
  | inl e ↦ rw e h
  | inr e ↦ elim (Bool-cases (str_eq name parent)) [
    | inl p ↦ rw (e, p) (go_up-IsStack stack h)
    | inr p ↦ rw (e, p) (inr ((λ q. cc (p, (str_eq_iff name parent).1 q)), h))
  ]
]

-- Read from the front: no `..` at all, or `..` first.
abbrev Led : List Text → Type 0
Led names = All (λ n. n ≢ parent) names ⊎ ((rest : List Text) × (names ≡ parent ∷ rest))

parents-Led : (names : List Text) → names ≢ [] → All (λ n. n ≡ parent) names → Led names
parents-Led [] ne h = absurd (ne refl)
parents-Led (n ∷ names) ne (e, h) = inr (names, rw e)

Led-snoc : (names : List Text) (n : Text) → n ≢ parent → Led names → Led (names ++ n ∷ [])
Led-snoc names n ne (inl h) = inl (All-append _ names (n ∷ []) h (ne, tt))
Led-snoc names n ne (inr (rest, e)) = inr (rest ++ n ∷ [], rw e)

snoc-ne-nil : (names : List Text) (n : Text) → names ++ n ∷ [] ≢ []
snoc-ne-nil [] n e = cc
snoc-ne-nil (m ∷ names) n e = cc

reverse-Led : (stack : List Text) → IsStack stack → Led (reverse stack)
reverse-Led [] h = inl tt
reverse-Led (n ∷ below) (inl (e, all)) = rw reverse-cons (
    parents-Led (reverse below ++ n ∷ []) (snoc-ne-nil (reverse below) n)
      (All-append _ (reverse below) (n ∷ []) (All-reverse_list _ below all) (e, tt)))
reverse-Led (n ∷ below) (inr (ne, h)) =
    rw reverse-cons (Led-snoc (reverse below) n ne (reverse-Led below h))

resolve_names-Led :
    (stack names : List Text) → IsStack stack → Led (resolve_names false stack names)
unfolding resolve_names
resolve_names-Led stack [] h = reverse-Led stack h
resolve_names-Led stack (name ∷ names) h =
    resolve_names-Led (push_name false stack name) names (push_name-IsStack stack name h)

-- Every name on the way is a name between slashes.
go_up-IsName : (stack : List Text) → All IsName stack → All IsName (go_up false stack)
unfolding go_up
go_up-IsName [] h = (parent-IsName, tt)
go_up-IsName (top ∷ below) h = elim (Bool-cases (str_eq top parent)) [
  | inl e ↦ rw e (parent-IsName, h)
  | inr e ↦ rw e h.1
]

push_name-IsName :
    (stack : List Text) (name : Text)
    → All IsName stack
    → IsName name
    → All IsName (push_name false stack name)
unfolding push_name
push_name-IsName stack name h n = elim (Bool-cases (str_eq name (codes "."))) [
  | inl e ↦ rw e h
  | inr e ↦ elim (Bool-cases (str_eq name parent)) [
    | inl p ↦ rw (e, p) (go_up-IsName stack h)
    | inr p ↦ rw (e, p) (n, h)
  ]
]

resolve_names-IsName :
    (stack names : List Text)
    → All IsName stack
    → All IsName names
    → All IsName (resolve_names false stack names)
unfolding resolve_names
resolve_names-IsName stack [] h hs = All-reverse_list IsName stack h
resolve_names-IsName stack (name ∷ names) h (n, hs) =
    resolve_names-IsName (push_name false stack name) names (push_name-IsName stack name h n) hs

join-parent : (rest : List Text) → has_prefix (join (parent ∷ rest) slash) parent ≡ true
unfolding join
join-parent [] = has_prefix-append parent []
join-parent (n ∷ rest) = has_prefix-append parent (slash ++ join (n ∷ rest) slash)

segments-IsName : (p : Text) → All IsName (segments p)
unfolding segments
segments-IsName p = fields_func-IsField is_slash p

segments-join : (names : List Text) → All IsName names → segments (join names slash) ≡ names
unfolding segments
segments-join names h = fields_func-join is_slash b'/' names refl h

dot-ne-parent : codes "." ≢ parent
dot-ne-parent e = cc

-- The names that a path has once it is cleaned, if it is neither absolute nor begins with `..`:
-- none of them is `..`.
relative_names :
    (names : List Text)
    → Led names
    → All IsName names
    → has_prefix (render false names) parent ≡ false
    → All (λ n. n ≢ parent) (segments (render false names))
unfolding render
relative_names [] led h p = unfold segments in (dot-ne-parent, tt)
relative_names (n ∷ names) (inl h) hs p = rw (segments-join (n ∷ names) hs) h
relative_names (n ∷ names) (inr (rest, e)) hs p = cc (p, e, join-parent rest)

relative_cleaned :
    (p : Text)
    → is_abs p ≡ false
    → has_prefix (cleaned p) parent ≡ false
    → All (λ n. n ≢ parent) (segments (cleaned p))
unfolding cleaned
relative_cleaned p a h = rw a (
    relative_names (resolve_names false [] (segments p)) (resolve_names-Led [] (segments p) tt)
      (resolve_names-IsName [] (segments p) tt (segments-IsName p)) (rw a at h))

absolute_cleaned : (p : Text) → is_abs p ≡ true → is_abs (cleaned p) ≡ true
unfolding cleaned render
absolute_cleaned p a = rw a (unfold has_prefix in refl)

clean_lem : (p : Text) → clean p ≡ cleaned p
unfolding clean
clean_lem p = refl

-- A cleaned path that is not absolute and does not begin with `..` has no name `..`.
pub clean_inside :
    (p : Text)
    → is_abs (clean p) ≡ false
    → has_prefix (clean p) parent ≡ false
    → All (λ n. n ≢ parent) (segments (clean p))
clean_inside p a h = elim (Bool-cases (is_abs p)) [
  | inl e ↦ cc (absolute_cleaned p e, a, clean_lem p)
  | inr e ↦ rw (clean_lem p) (relative_cleaned p e (rw (clean_lem p) at h))
]
