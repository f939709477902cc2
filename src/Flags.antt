-- ===== src/Flags.antt =====
-- Package flag as the commands of cli/main.go use it: `FlagSet.Parse` with string and Boolean
-- flags. The settings are returned in the order in which `Set` is called.
use http_capture.Prelude.{
  ℕ, Bool, Bytes, codes, List, [], ◌∷◌, Option, none, some, if◌then◌else◌, ◌==◌, ◌||◌, str_eq,
  split_at_byte, ◌≡◌, refl,
}
use http_capture.Errors.{
  Error, bad_flag_syntax, undefined_flag, missing_flag_value, bad_switch_value, help_requested,
}
use http_capture.Effects.{Outcome, ok, err}

pub data Kind : Type 0 where
  text switch : Kind

abbrev pub Setting : Type 0
Setting = Bytes × Bytes

-- The settings made, and the arguments that are left.
abbrev pub Parsed : Type 0
Parsed = List Setting × List Bytes

-- What one argument is.
pub data Shape : Type 0 where
  positional terminator bad : Shape
  flag : Bytes → Option Bytes → Shape

abbrev dash : ℕ
dash = b'-'

-- `name` or `name=value`, behind the dashes.
named : Bytes → Shape
named [] = Shape.bad
named (c ∷ s) =
    let (name, value) = split_at_byte b'=' s in
    if c == dash || c == b'=' then Shape.bad else flag (c ∷ name) value

shape : Bytes → Shape
unfolding named
shape [] = positional
shape (c ∷ []) = positional
shape (c ∷ d ∷ []) =
    if c == dash then (if d == dash then terminator else named (d ∷ [])) else positional
shape (c ∷ d ∷ e ∷ s) =
    if c == dash then (if d == dash then named (e ∷ s) else named (d ∷ e ∷ s)) else positional

-- The values that `strconv.ParseBool` takes.
is_bool : Bytes → Bool
is_bool v =
    str_eq v (codes "1")
    || str_eq v (codes "t")
    || str_eq v (codes "T")
    || str_eq v (codes "TRUE")
    || str_eq v (codes "true")
    || str_eq v (codes "True")
    || str_eq v (codes "0")
    || str_eq v (codes "f")
    || str_eq v (codes "F")
    || str_eq v (codes "FALSE")
    || str_eq v (codes "false")
    || str_eq v (codes "False")

abbrev pub add_setting : Bytes → Bytes → Outcome Parsed → Outcome Parsed
add_setting name value (ok (settings, rest)) = ok ((name, value) ∷ settings, rest)
add_setting name value (err e) = err e

undefined : Bytes → Error
undefined name =
    if str_eq name (codes "help") || str_eq name (codes "h")
    then help_requested
    else undefined_flag name

switched : Bytes → Option Bytes → Outcome Parsed → Outcome Parsed
unfolding is_bool
switched name none rest = add_setting name (codes "true") rest
switched name (some v) rest =
    if is_bool v then add_setting name v rest else err (bad_switch_value name)

module _ (kinds : Bytes → Option Kind) where
  unfoldable pub parse : List Bytes → Outcome Parsed
  unfolding shape switched undefined
  parse [] = ok ([], [])
  parse (arg ∷ []) = elim (shape arg) [
    | positional ↦ ok ([], arg ∷ [])
    | terminator ↦ ok ([], [])
    | Shape.bad ↦ err (bad_flag_syntax arg)
    | flag name value ↦ elim (kinds name) [
      | none ↦ err (undefined name)
      | some switch ↦ switched name value (ok ([], []))
      | some text ↦ elim value [
        | none ↦ err (missing_flag_value name)
        | some v ↦ ok ((name, v) ∷ [], [])
      ]
    ]
  ]
  parse (arg ∷ next ∷ rest) =
      let here = parse (next ∷ rest) in
      let beyond = parse rest in
      elim (shape arg) [
        | positional ↦ ok ([], arg ∷ next ∷ rest)
        | terminator ↦ ok ([], next ∷ rest)
        | Shape.bad ↦ err (bad_flag_syntax arg)
        | flag name value ↦ elim (kinds name) [
          | none ↦ err (undefined name)
          | some switch ↦ switched name value here
          | some text ↦ elim value [
            | none ↦ add_setting name next beyond
            | some v ↦ add_setting name v here
          ]
        ]
      ]

-- The value of a string flag: the last setting, or the default.
unfoldable pub value_of : Bytes → Bytes → List Setting → Bytes
value_of name fallback [] = fallback
value_of name fallback ((n, v) ∷ rest) = value_of name (if str_eq n name then v else fallback) rest

-- The values of a repeated flag.
unfoldable pub values_of : Bytes → List Setting → List Bytes
values_of name [] = []
values_of name ((n, v) ∷ rest) =
    if str_eq n name then v ∷ values_of name rest else values_of name rest

-- The values that `strconv.ParseBool` reads as true.
unfoldable pub is_true : Bytes → Bool
is_true v =
    str_eq v (codes "1")
    || str_eq v (codes "t")
    || str_eq v (codes "T")
    || str_eq v (codes "TRUE")
    || str_eq v (codes "true")
    || str_eq v (codes "True")

engine_and_switch : Bytes → Option Kind
engine_and_switch name =
    if str_eq name (codes "engine")
    then some text
    else if str_eq name (codes "clear")
    then some switch
    else none

parse_forms :
    parse engine_and_switch
      (codes "--engine" ∷ codes "x" ∷ codes "-clear" ∷ codes "-engine=y" ∷ codes "tail" ∷ [])
    ≡ ok (
      (codes "engine", codes "x")
          ∷ (codes "clear", codes "true")
          ∷ (codes "engine", codes "y")
          ∷ [],
      codes "tail" ∷ [],
    )
unfolding parse engine_and_switch str_eq split_at_byte
parse_forms = refl
