-- ===== src/Rules/Values.antt =====
-- internal/rules/engine.go: the values of parsed JSON, and how the engine reads them. A float64 is
-- its bit pattern. The conversions of packages strconv and strings that depend on floats or on
-- Unicode are fields of `Conversions`, so that every theorem holds for all of them.
use sniffy.Common.{ℕ, Bool, true, false, [], ◌∷◌, Option, if◌then◌else◌}
use sniffy.Common.Int.{ℤ, pos}
use sniffy.Common.Bytes.{Text, text_eq, codes}
use sniffy.Common.Trim.{trim_space}

mutual
  -- `any`, as `encoding/json` and the stores fill it.
  pub data Value : Type 0 where
    null : Value
    text : Text → Value
    flag : Bool → Value
    number : ℕ → Value
    integer : ℤ → Value
    object : Object → Value
    array : Items → Value

  -- `map[string]any`.
  pub data Object : Type 0 where
    no_fields : Object
    field : Text → Value → Object → Object

  -- `[]any`.
  pub data Items : Type 0 where
    no_items : Items
    next_item : Value → Items → Items

pub record Conversions : Type 0 where
  -- `strings.ToLower`, `strings.ToUpper`, `strings.EqualFold`.
  pub to_lower : Text → Text
  pub to_upper : Text → Text
  pub equal_fold : Text → Text → Bool
  -- `strconv.FormatInt` and, for a number that is no int64, `strconv.FormatFloat`.
  pub format_number : ℕ → Text
  pub format_int : ℤ → Text
  -- `strconv.Atoi`, which gives a number also with an error, and `int(x)`.
  pub atoi : Text → ℤ
  pub to_int : ℕ → ℤ
  -- `strconv.ParseFloat`, and `<` and `<=` on floats.
  pub parse_float : Text → Option ℕ
  pub less : ℕ → ℕ → Bool
  pub less_or_equal : ℕ → ℕ → Bool

-- `m[key]`; a missing key gives nil.
unfoldable pub value_at : Text → Object → Value
value_at key no_fields = null
value_at key (field k v m) = if text_eq k key then v else value_at key m

-- `strconv.FormatBool`.
format_bool : Bool → Text
format_bool true = codes "true"
format_bool false = codes "false"

unfoldable pub stringify : Conversions → Value → Text
unfolding format_bool
stringify c null = []
stringify c (text s) = s
stringify c (flag b) = format_bool b
stringify c (number x) = c.format_number x
stringify c (integer z) = c.format_int z
stringify c (object m) = []
stringify c (array xs) = []

-- `getStr`; a nil map is one with no fields.
unfoldable pub get_str : Conversions → Object → Text → Text
unfolding stringify value_at
get_str c m key = stringify c (value_at key m)

to_int_value : Conversions → Value → ℤ
to_int_value c null = pos 0
to_int_value c (text s) = c.atoi (trim_space s)
to_int_value c (flag b) = pos 0
to_int_value c (number x) = c.to_int x
to_int_value c (integer z) = z
to_int_value c (object m) = pos 0
to_int_value c (array xs) = pos 0

-- `getInt`.
unfoldable pub get_int : Conversions → Object → Text → ℤ
unfolding to_int_value value_at
get_int c m key = to_int_value c (value_at key m)

unfoldable pub first_non_empty : Text → Text → Text
first_non_empty [] b = b
first_non_empty (x ∷ a) b = x ∷ a
