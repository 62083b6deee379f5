-- ===== src/Vm/Binop.antt =====
-- The operators and conversions of internal/vm/vm.go: `BcBinop` and `BcConvert`.
use Prim.Native.Nat.{Ordering}
use howlframe.Common.{
  ℕ, String, Bool, true, false, ◌||◌, not, Option, none, some, List, [], ◌∷◌, ℤ, pos, str_eq,
  str_append, if◌then◌else◌, ◌%◌, ◌^◌, ◌==◌,
}
use howlframe.Common.Result.{Result, ok, err, ◌>>=◌}
use howlframe.Program.{is_finite}
use howlframe.Opcode.{Opcode, unknown, convert}
use howlframe.Vm.Value.{
  Val, Vals, nil, bool, int, float, string, bytes, list, item, end, Vars, Arg, type_of, value, text,
  VmError, runtime_error, Host,
}
use howlframe.Vm.Float.{in_int64_range, truncate}
use howlframe.Vm.Integer.{checked_add, checked_sub, checked_mul}
use howlframe.Vm.Numeric.{
  to_float64, compare_numeric, compare_strings, relational_has_nan, values_equal,
}

-- What a computation on values gives: a value, or a *VMError at instruction 0.
abbrev pub Computed : Type 0 → Type 0
Computed A = Result VmError A

abbrev problem : {A : Type 0} → String → Opcode → String → List Arg → Computed A
problem code op format args = err (runtime_error code (pos 0) op format args)

-- `BcToBool`
unfoldable pub to_bool : Val → Computed Bool
to_bool (bool b) = ok b
to_bool v = problem "TYPE_ERROR" unknown "expected boolean, got %T" (type_of v ∷ [])

abbrev not_numeric : {A : Type 0} → String → Val → Val → Computed A
not_numeric op a b =
    problem "TYPE_ERROR" unknown "%s requires numeric operands, got %T and %T"
      (text op ∷ type_of a ∷ type_of b ∷ [])

-- Both operands as float64, or the type error of the operator.
unfoldable pub float_operands : Host → String → Val → Val → Computed (ℕ × ℕ)
unfolding to_float64
float_operands host op a b = elim (to_float64 host a) [
  | none ↦ not_numeric op a b
  | some af ↦ elim (to_float64 host b) [ none ↦ not_numeric op a b | some bf ↦ ok (af, bf) ]
]

-- `floatArithmetic`, before its test; the operator is one of + - *.
unfoldable pub float_arithmetic : Host → String → ℕ → ℕ → ℕ
float_arithmetic host op a b =
    if str_eq op "+"
    then host.float_add a b
    else if str_eq op "-"
    then host.float_sub a b
    else host.float_mul a b

unfoldable pub checked_arithmetic : String → ℤ → ℤ → Computed ℤ
checked_arithmetic op a b =
    if str_eq op "+"
    then checked_add a b
    else if str_eq op "-"
    then checked_sub a b
    else checked_mul a b

-- The float case of + - * in `bcNumericBinop`.
unfoldable pub finite_arithmetic : Host → String → ℕ × ℕ → Computed Val
unfolding float_arithmetic
finite_arithmetic host op (a, b) =
    let r = float_arithmetic host op a b in
    if is_finite r
    then ok (float r)
    else problem "RUNTIME_ERROR" unknown "floating-point overflow: %s %s %s is not finite"
        (value (float a) ∷ text op ∷ value (float b) ∷ [])

-- + - * in `bcNumericBinop`.
unfoldable pub arithmetic : Host → String → Val → Val → Computed Val
unfolding checked_arithmetic float_operands finite_arithmetic
arithmetic host op (int a) (int b) = checked_arithmetic op a b >>= λ c. ok (int c)
arithmetic host op a b = float_operands host op a b >>= finite_arithmetic host op

-- The quotient of two floats, if the divisor is not a zero and the quotient is finite.
unfoldable pub finite_quotient : Host → ℕ × ℕ → Computed Val
finite_quotient host (a, b) =
    let r = host.float_div a b in
    if b % 2 ^ 63 == 0
    then problem "RUNTIME_ERROR" unknown "division by zero" []
    else if is_finite r
    then ok (float r)
    else problem "RUNTIME_ERROR" unknown "division produced an invalid floating-point result" []

-- / in `bcNumericBinop`.
unfoldable pub divide : Host → Val → Val → Computed Val
unfolding float_operands finite_quotient
divide host a b = float_operands host "/" a b >>= finite_quotient host

-- The answer of < > <= >= from the order of the operands.
unfoldable pub holds : String → Ordering → Bool
holds op Ordering.lt = str_eq op "<" || str_eq op "<="
holds op Ordering.eq = str_eq op "<=" || str_eq op ">="
holds op Ordering.gt = str_eq op ">" || str_eq op ">="

-- < > <= >= in `bcNumericBinop`.
unfoldable pub relational : Host → String → Val → Val → Computed Val
unfolding relational_has_nan compare_numeric compare_strings holds
relational host op a b =
    if relational_has_nan host a b then ok (bool false) else elim (compare_numeric host a b) [
      | some o ↦ ok (bool (holds op o))
      | none ↦ elim (compare_strings a b) [
        | some o ↦ ok (bool (holds op o))
        | none ↦ not_numeric op a b
      ]
    ]

-- `bcNumericBinop`
unfoldable pub numeric_binop : Host → String → Val → Val → Computed Val
unfolding arithmetic divide relational
numeric_binop host op a b =
    if str_eq op "+" || str_eq op "-" || str_eq op "*"
    then arithmetic host op a b
    else if str_eq op "/"
    then divide host a b
    else if str_eq op "<" || str_eq op ">" || str_eq op "<=" || str_eq op ">="
    then relational host op a b
    else problem "VM_INTERNAL" unknown "unknown binop: %s" (text op ∷ [])

-- + in `BcBinop`: texts are joined.
unfoldable pub plus : Host → Val → Val → Computed Val
unfolding numeric_binop
plus host (string a) (string b) = ok (string (str_append a b))
plus host a b = numeric_binop host "+" a b

-- and, or in `BcBinop`: the second operand is read only if the first does not decide.
unfoldable pub both : Val → Val → Computed Val
unfolding to_bool
both a b = to_bool a >>= λ x. if x then (to_bool b >>= λ y. ok (bool y)) else ok (bool false)

unfoldable pub one_of : Val → Val → Computed Val
unfolding to_bool
one_of a b = to_bool a >>= λ x. if x then ok (bool true) else to_bool b >>= λ y. ok (bool y)

-- `BcBinop`
unfoldable pub bc_binop : Host → String → Val → Val → Computed Val
unfolding both one_of values_equal plus numeric_binop
bc_binop host op a b =
    if str_eq op "and"
    then both a b
    else if str_eq op "or"
    then one_of a b
    else if str_eq op "=="
    then ok (bool (values_equal a b))
    else if str_eq op "!="
    then ok (bool (not (values_equal a b)))
    else if str_eq op "+"
    then plus host a b
    else numeric_binop host op a b

abbrev cannot_convert : {A : Type 0} → String → Arg → Computed A
cannot_convert format a = problem "CONVERSION_ERROR" convert format (a ∷ [])

-- The target "to_int" of `BcConvert`.
unfoldable pub convert_int : Host → Val → Computed Val
unfolding in_int64_range truncate
convert_int host (float f) =
    if in_int64_range f
    then ok (int (truncate f))
    else cannot_convert "cannot convert %v to int" (value (float f))
convert_int host (string t) = elim (host.parse_int (host.trim_space t)) [
  | some n ↦ ok (int n)
  | none ↦ cannot_convert "cannot convert %q to int" (text t)
]
convert_int host (int n) = ok (int n)
convert_int host v = cannot_convert "cannot convert %T to int" (type_of v)

-- `parseFiniteFloat`
unfoldable pub parse_finite_float : Host → String → Option ℕ
parse_finite_float host t = elim (host.parse_float (host.trim_space t)) [
  | none ↦ none
  | some f ↦ if is_finite f then some f else none
]

-- The target "to_float" of `BcConvert`.
unfoldable pub convert_float : Host → Val → Computed Val
unfolding parse_finite_float
convert_float host (string t) = elim (parse_finite_float host t) [
  | some f ↦ ok (float f)
  | none ↦ cannot_convert "cannot convert %q to float" (text t)
]
convert_float host (float f) =
    if is_finite f
    then ok (float f)
    else cannot_convert "cannot convert %v to float" (value (float f))
convert_float host (int n) = ok (float (host.float_of_int n))
convert_float host v = cannot_convert "cannot convert %T to float" (type_of v)

-- `bytesFromNumberList`, for bytes_to_string.
unfoldable pub bytes_from_numbers : Host → Vals → Computed (List ℕ)
bytes_from_numbers host end = ok []
bytes_from_numbers host (item v vs) =
    let rest = bytes_from_numbers host vs in
    elim (to_float64 host v) [
      | some f ↦ rest >>= λ bs. ok (host.byte_of_float f ∷ bs)
      | none ↦
          problem "TYPE_ERROR" convert "bytes_to_string byte list element expected number, got %T"
            (type_of v ∷ [])
    ]

-- The target "bytes_to_string" of `BcConvert`.
unfoldable pub convert_bytes : Host → Val → Computed Val
unfolding bytes_from_numbers to_float64
convert_bytes host (bytes bs) = ok (string (host.string_of_bytes bs))
convert_bytes host (list vs) =
    bytes_from_numbers host vs >>= λ bs. ok (string (host.string_of_bytes bs))
convert_bytes host v =
    problem "TYPE_ERROR" convert "bytes_to_string expected []any, got %T" (type_of v ∷ [])

-- `TextOf`
unfoldable pub text_of : Host → List Vars → Val → String
text_of host heap nil = ""
text_of host heap v = host.sprint heap v

-- `BcConvert`
unfoldable pub bc_convert : Host → List Vars → String → Val → Computed Val
unfolding convert_int convert_float convert_bytes text_of
bc_convert host heap target v =
    if str_eq target "to_int"
    then convert_int host v
    else if str_eq target "to_float"
    then convert_float host v
    else if str_eq target "to_string"
    then ok (string (text_of host heap v))
    else if str_eq target "bytes_to_string"
    then convert_bytes host v
    else if str_eq target "to_lower"
    then ok (string (host.to_lower (host.sprint heap v)))
    else if str_eq target "to_upper"
    then ok (string (host.to_upper (host.sprint heap v)))
    else if str_eq target "str_trim"
    then ok (string (host.trim_space (host.sprint heap v)))
    else ok v
