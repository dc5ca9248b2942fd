-- ===== src/Parser/Construct.antt =====
-- lib/parser/dockerfile: the constructors of the directives, one for each type, and `newDirective`.
use makisu.Base.{
  ℕ, ◌+◌, Bool, true, false, not, Option, some, none, List, [], ◌∷◌, ◌++◌, ◌==◌, if◌then◌else◌,
  Bytes, codes, ok, err, ◌>>=◌, ◌>>◌, guard, Result, leb, ltb, length, last?, init,
}
use makisu.Text.{fields, join, equal_fold, after_prefix, has_prefix}
use makisu.Parser.Directive.{
  BaseDirective, AddCopyDirective, Directive, ParsingState, ParseError, Parsed, Decoders,
  missing_args, missing_flag_value, archive_flag_format, too_many_flags, split_failed, in_directive,
  add, cmd, copy, entrypoint, run, volume,
}
use makisu.Parser.Line.{base_err, replace_vars_curr_stage}
use makisu.Parser.SplitArgs.{split_args}

-- `parseBoolFlag(s, name) == nil`
unfoldable pub is_bool_flag : Bytes → Bytes → Bool
is_bool_flag s name = equal_fold s (codes "--" ++ name)

-- `parseStringFlag`: the value, `none` where the text is another flag.
unfoldable pub parse_string_flag : Bytes → Bytes → Parsed (Option Bytes)
parse_string_flag s name = elim (after_prefix (codes "--" ++ name ++ codes "=") s) [
  | none ↦ ok none
  | some [] ↦ err missing_flag_value
  | some (c ∷ cs) ↦ ok (some (c ∷ cs))
]

-- An error of a callee, wrapped by `base.err`.
abbrev pub wrapped {ℓ κ} :
    {E : Type κ} {A : Type ℓ} → BaseDirective → (E → ParseError) → Result E A → Parsed A
wrapped d f (ok a) = ok a
wrapped d f (err e) = base_err d (f e)

abbrev pub plain_error : ParseError → ParseError
plain_error e = e

-- The counts and values of the loop over the flags of ADD and COPY.
pub record Flags : Type 0 where
  pub chown_count : ℕ
  pub archive_count : ℕ
  pub chown : Bytes
  pub preserve_owner : Bool

-- The `--archive` part of the loop's body.
archive_flag : Flags → Bytes → Parsed Flags
archive_flag f a =
    if has_prefix a (codes "--archive")
    then (if is_bool_flag a (codes "archive")
        then ok (record f { archive_count = f.archive_count + 1; preserve_owner = true })
        else err archive_flag_format)
    else ok f

-- The loop's body.
add_copy_flag : BaseDirective → Flags → Bytes → Parsed Flags
unfolding archive_flag
add_copy_flag d f a =
    if has_prefix a (codes "--chown")
    then (do
      val ← wrapped d plain_error (parse_string_flag a (codes "chown"))
      elim val [
        | none ↦ archive_flag f a
        | some v ↦ ok (record f { chown_count = f.chown_count + 1; chown = v })
      ])
    else archive_flag f a

add_copy_flags : BaseDirective → Flags → List Bytes → Parsed Flags
unfolding add_copy_flag
add_copy_flags d f [] = ok f
add_copy_flags d f (a ∷ rest) = do f' ← add_copy_flag d f a; add_copy_flags d f' rest

-- `args[1:]`
abbrev pub tail : List Bytes → List Bytes
tail [] = []
tail (x ∷ xs) = xs

-- `srcs` and `dst` of the arguments without their flag.
abbrev add_copy_of : BaseDirective → Flags → List Bytes → Parsed AddCopyDirective
add_copy_of d f parsed = elim (last? parsed) [
  | none ↦ base_err d missing_args
  | some dst ↦
      if ltb (length parsed) 2
      then base_err d missing_args
      else ok (record {
        base = d;
        chown = f.chown;
        preserve_owner = f.preserve_owner;
        srcs = init parsed;
        dst = dst;
      })
]

-- The values decoded from JSON, or the arguments themselves.
abbrev pub decoded_or : Option (List Bytes) → List Bytes → List Bytes
decoded_or none args = args
decoded_or (some l) args = l

module _ (dec : Decoders) where
  unfoldable pub new_add_copy_directive : BaseDirective → List Bytes → Parsed AddCopyDirective
  unfolding add_copy_flags
  new_add_copy_directive d args = do
    guard (not (length args == 0)) (in_directive d.t d.args missing_args)
    f ←
        add_copy_flags d
          (record { chown_count = 0; archive_count = 0; chown = []; preserve_owner = false })
          (init args)
    guard (leb (f.archive_count + f.chown_count) 1) (in_directive d.t d.args too_many_flags)
    let args' = if f.archive_count + f.chown_count == 1 then tail args else args
    add_copy_of d f (decoded_or (dec.json_array (join (codes " ") args')) args')

  unfoldable pub new_add_directive : BaseDirective → ParsingState → Parsed Directive
  new_add_directive base state = do
    d ← replace_vars_curr_stage base state
    guard (not (length (fields d.args) == 0)) (in_directive d.t d.args missing_args)
    ac ← new_add_copy_directive d (fields d.args)
    ok (add ac)

  -- The `--from` flag of COPY, first or second, and the arguments without it.
  from_flag : BaseDirective → List Bytes → Parsed (Bytes × List Bytes)
  from_flag d [] = base_err d missing_args
  from_flag d (a ∷ []) = do
    val ← wrapped d plain_error (parse_string_flag a (codes "from"))
    elim val [ none ↦ ok ([], a ∷ []) | some v ↦ ok (v, []) ]
  from_flag d (a ∷ b ∷ []) = do
    val ← wrapped d plain_error (parse_string_flag a (codes "from"))
    elim val [ none ↦ ok ([], a ∷ b ∷ []) | some v ↦ ok (v, b ∷ []) ]
  from_flag d (a ∷ b ∷ c ∷ rest) = do
    val ← wrapped d plain_error (parse_string_flag a (codes "from"))
    elim val [
      | some v ↦ ok (v, b ∷ c ∷ rest)
      | none ↦ do
        val' ← wrapped d plain_error (parse_string_flag b (codes "from"))
        elim val' [ none ↦ ok ([], a ∷ b ∷ c ∷ rest) | some v ↦ ok (v, a ∷ c ∷ rest) ]
    ]

  unfoldable pub new_copy_directive : BaseDirective → ParsingState → Parsed Directive
  unfolding from_flag
  new_copy_directive base state = do
    d ← replace_vars_curr_stage base state
    (from_stage, args) ← from_flag d (fields d.args)
    ac ← new_add_copy_directive d args
    ok (copy ac from_stage)

  -- CMD and ENTRYPOINT: a JSON array, or the shell form.
  shell_form : BaseDirective → Parsed (List Bytes)
  shell_form d = elim (dec.json_array d.args) [
    | some l ↦ ok l
    | none ↦ do
      args ← wrapped d split_failed (split_args d.args true)
      ok (codes "/bin/sh" ∷ codes "-c" ∷ join (codes " ") args ∷ [])
  ]

  unfoldable pub new_cmd_directive : BaseDirective → ParsingState → Parsed Directive
  unfolding shell_form
  new_cmd_directive base state = do
    d ← replace_vars_curr_stage base state
    l ← shell_form d
    ok (cmd d l)

  unfoldable pub new_entrypoint_directive : BaseDirective → ParsingState → Parsed Directive
  unfolding shell_form
  new_entrypoint_directive base state = do
    d ← replace_vars_curr_stage base state
    l ← shell_form d
    ok (entrypoint d l)

  unfoldable pub new_run_directive : BaseDirective → ParsingState → Parsed Directive
  new_run_directive base state = do
    d ← replace_vars_curr_stage base state
    elim (dec.json_array d.args) [
      | some l ↦ ok (run d (join (codes " ") l))
      | none ↦ ok (run d d.args)
    ]

  unfoldable pub new_volume_directive : BaseDirective → ParsingState → Parsed Directive
  new_volume_directive base state = do
    d ← replace_vars_curr_stage base state
    elim (dec.json_array d.args) [
      | some l ↦ ok (volume d l)
      | none ↦ do
        guard (not (length (fields d.args) == 0)) (in_directive d.t d.args missing_args)
        ok (volume d (fields d.args))
    ]
