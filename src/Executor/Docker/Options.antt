-- ===== src/Executor/Docker/Options.antt =====
-- What docker reads in the arguments of internal/executor/docker.go: its options up to the first
-- argument that is none, then the image and the command in the container.
use openpreflight.Prelude.{
  ℕ, ◌≡◌, refl, sym, ap, ◌∙◌, ◌⊎◌, inl, inr, Bool, true, false, not, List, [], ◌∷◌, ◌++◌, reverse,
  reverse-append, Option, none, some, some-injective, if◌then◌else◌, is_nil, drop, arith,
  Bool-cases, All,
}
use mathlib.Core.List.{reverse-cons}
use openpreflight.Go.Strings.{
  Text, codes, str_eq, has_prefix, trim_left, trim_right, trim_space, is_space,
}
use openpreflight.Executor.Image.{valid_image}
use openpreflight.Executor.Docker.{
  DockerStep, cut, keeps_own, env_args, step_env, docker_args, docker_command,
}

-- An option with its value, which is empty for one that takes none.
abbrev pub option : Text → Text → List (Text × Text) × List Text → List (Text × Text) × List Text
option name value (options, rest) = ((name, value) ∷ options, rest)

-- The options in front, and the arguments behind them. An option is an argument with a dash at its
-- beginning; all but `--rm` take the argument behind them as their value.
unfoldable pub read_options : List Text → List (Text × Text) × List Text
read_options [] = ([], [])
read_options (a ∷ []) = if has_prefix a (codes "-") then ((a, []) ∷ [], []) else ([], a ∷ [])
read_options (a ∷ v ∷ rest) =
    let flag = option a [] (read_options (v ∷ rest)) in
    let valued = option a v (read_options rest) in
    if not (has_prefix a (codes "-"))
    then ([], a ∷ v ∷ rest)
    else if str_eq a (codes "--rm")
    then flag
    else valued

-- The values of the `--env` options in a list of arguments, two by two.
abbrev pub env_options : List Text → List (Text × Text)
env_options [] = []
env_options (a ∷ []) = []
env_options (a ∷ v ∷ rest) = (a, v) ∷ env_options rest

-- A variable that the step may set: it has a name, and the name is not one that the container keeps.
pub record IsStepVar (option : Text × Text) : Type 0 where
  pub name : Text
  pub value : Text
  pub is_env : option ≡ (codes "--env", name ++ b'=' ∷ value)
  pub named : is_nil name ≡ false
  pub own : keeps_own name ≡ false

dash_first : (s : Text) → has_prefix s (codes "-") ≡ true → (t : Text) × (s ≡ b'-' ∷ t)
unfolding has_prefix
dash_first [] h = cc
dash_first (c ∷ s) h = (s, ap (λ d. d ∷ s) (ground (arith, h)))

trim_left_last :
    (p : ℕ → Bool) (c : ℕ) (s : Text)
    → p c ≡ false
    → (t : Text) × (trim_left p (s ++ c ∷ []) ≡ t ++ c ∷ [])
unfolding trim_left
trim_left_last p c [] h = ([], rw h refl)
trim_left_last p c (d ∷ s) h = elim (Bool-cases (p d)) [
  | inl e ↦ let (t, same) = trim_left_last p c s h in (t, rw e same)
  | inr e ↦ (d ∷ s, rw e refl)
]

trim_space_dash : (s : Text) → (t : Text) × (trim_space (b'-' ∷ s) ≡ b'-' ∷ t)
unfolding trim_space trim_right trim_left is_space
trim_space_dash s =
    let (t, same) = trim_left_last is_space b'-' (reverse s) refl in
    (
      reverse t,
      ap (λ r. reverse (trim_left is_space r)) (reverse-cons b'-' s)
          ∙ (ap reverse same ∙ reverse-append t (b'-' ∷ [])),
    )

dash_refused : (name t : Text) → trim_space name ≡ b'-' ∷ t → valid_image name ≡ false
unfolding valid_image has_prefix
dash_refused name t e = rw e (ground arith)

-- A name that is accepted is no option.
image-no_dash : (name : Text) → valid_image name ≡ true → has_prefix name (codes "-") ≡ false
image-no_dash name h = elim (Bool-cases (has_prefix name (codes "-"))) [
  | inl e ↦
      let (s, starts) = dash_first name e in
      let (t, same) = trim_space_dash s in cc (dash_refused name t (ap trim_space starts ∙ same), h)
  | inr e ↦ e
]

read_options-env :
    (v : Text) (rest : List Text)
    → read_options (codes "--env" ∷ v ∷ rest) ≡ option (codes "--env") v (read_options rest)
unfolding read_options has_prefix str_eq
read_options-env v rest = refl

env_args-cases :
    (o : Option (Text × Text))
    → (env_args o ≡ [])
      ⊎ ((key : Text) × (val : Text) × (env_args o ≡ codes "--env" ∷ (key ++ b'=' ∷ val) ∷ [])
          × (is_nil key ≡ false)
          × (keeps_own key ≡ false))
unfolding env_args
env_args-cases none = inl refl
env_args-cases (some (key, val)) = elim (Bool-cases (is_nil key)) [
  | inl e ↦ inl (rw e refl)
  | inr e ↦ elim (Bool-cases (keeps_own key)) [
    | inl f ↦ inl (rw (e, f) refl)
    | inr f ↦ inr (key, val, rw (e, f) refl, e, f)
  ]
]

-- Behind the variables of the step come the other arguments.
read_options-step_env :
    (env : List Text) (rest : List Text)
    → (vars : List (Text × Text)) × (read_options (step_env env ++ rest)
        ≡ (vars ++ (read_options rest).0, (read_options rest).1))
      × All IsStepVar vars
unfolding step_env
read_options-step_env [] rest = ([], refl, tt)
read_options-step_env (kv ∷ env) rest =
    let (vars, same, all) = read_options-step_env env rest in
    elim (env_args-cases (cut b'=' kv)) [
      | inl none_ ↦ (vars, rw none_ same, all)
      | inr (key, val, one, named, own) ↦ (
        (codes "--env", key ++ b'=' ∷ val) ∷ vars,
        rw one (
            read_options-env (key ++ b'=' ∷ val) (step_env env ++ rest)
            ∙ ap (option (codes "--env") (key ++ b'=' ∷ val)) same),
        (record { name = key; value = val; is_env = refl; named = named; own = own }, all),
      )
    ]

-- The options that every step's container has.
abbrev pub fixed_options : DockerStep → List (Text × Text)
fixed_options d =
    (codes "--rm", [])
    ∷ (codes "--network", codes "bridge")
    ∷ (codes "--workdir", codes "/work")
    ∷ (codes "--volume", d.dir ++ codes ":/work")
    ∷ (codes "--user", d.user)
    ∷ (codes "--security-opt", codes "no-new-privileges")
    ∷ (codes "--cap-drop", codes "ALL")
    ∷ (codes "--env", codes "HOME=/work")
    ∷ (codes "--env", codes "CI=true")
    ∷ (codes "--env", codes "CONTINUOUS_INTEGRATION=true")
    ∷ []

-- The command of a step: `docker run` with these options, variables of the step, the file of the
-- container's id, and then the image and the command in the container.
abbrev pub Confines : DockerStep → List Text → Type 0
Confines d args =
    (rest : List Text) × (vars : List (Text × Text)) × (args ≡ codes "run" ∷ rest)
    × (read_options rest ≡ (
      fixed_options d ++ (vars ++ (codes "--cidfile", d.cid_path) ∷ []),
      d.image ∷ codes "/bin/sh" ∷ codes "-c" ∷ d.command ∷ [],
    ))
    × All IsStepVar vars

image_last :
    (d : DockerStep)
    → has_prefix d.image (codes "-") ≡ false
    → read_options
        (codes "--cidfile" ∷ d.cid_path ∷ d.image ∷ codes "/bin/sh" ∷ codes "-c" ∷ d.command ∷ [])
      ≡ (
        (codes "--cidfile", d.cid_path) ∷ [],
        d.image ∷ codes "/bin/sh" ∷ codes "-c" ∷ d.command ∷ [],
      )
unfolding read_options str_eq
image_last d h = rw h (unfold has_prefix in refl)

read_options-behind_run :
    (d : DockerStep) (vars : List (Text × Text))
    → read_options (
        step_env d.env
        ++ codes "--cidfile" ∷ d.cid_path ∷ d.image ∷ codes "/bin/sh" ∷ codes "-c" ∷ d.command ∷ [])
      ≡ (
        vars ++ (codes "--cidfile", d.cid_path) ∷ [],
        d.image ∷ codes "/bin/sh" ∷ codes "-c" ∷ d.command ∷ [],
      )
    → read_options (drop 1 (docker_args d)) ≡ (
      fixed_options d ++ (vars ++ (codes "--cidfile", d.cid_path) ∷ []),
      d.image ∷ codes "/bin/sh" ∷ codes "-c" ∷ d.command ∷ [],
    )
unfolding docker_args read_options has_prefix str_eq
read_options-behind_run d vars h = ap (λ r. (fixed_options d ++ r.0, r.1)) h

-- If the image's name is accepted and so the command of a step is made, docker reads its arguments as
-- the fixed options, the step's variables and the file of the container's id, with the image and the
-- command behind them: neither the name nor a variable adds an option of another kind, and no variable
-- has the name of one that the container keeps.
pub docker_command-Confines :
    (d : DockerStep) (args : List Text) → docker_command d ≡ some args → Confines d args
unfolding docker_command docker_args
docker_command-Confines d args h = elim (Bool-cases (valid_image d.image)) [
  | inl e ↦
      let (vars, same, all) = read_options-step_env d.env (
        codes "--cidfile" ∷ d.cid_path ∷ d.image ∷ codes "/bin/sh" ∷ codes "-c" ∷ d.command ∷ []) in
      let made : docker_command d ≡ some (docker_args d) = rw e refl in
      let plain = image_last d (image-no_dash d.image e) in
      (
        drop 1 (docker_args d),
        vars,
        sym (some-injective (sym made ∙ h)),
        read_options-behind_run d vars (same ∙ ap (λ r. (vars ++ r.0, r.1)) plain),
        all,
      )
  | inr e ↦ cc (h, e)
]
