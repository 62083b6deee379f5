-- ===== src/Vm/Data.antt =====
-- The instructions of internal/vm/vm.go that compute on values: BINOP to MAKE_LIST, LIST_GET,
-- LIST_LEN, APPEND, PRINT and the like.
use howlframe.Common.{
  if◌then◌else◌, ℕ, zero, suc, ◌+◌, String, Bool, true, false, Option, none, some, List, [], ◌∷◌,
  ◌++◌, ℤ, pos, negsuc, map, length, get_elem?, str_eq, str_append,
}
use Prim.Native.String.{len}
use howlframe.Common.Result.{ok, err}
use howlframe.Opcode.{Opcode}
use howlframe.Program.{Instruction}
use howlframe.Program
use howlframe.Vm.Value.{
  Val, nil, bool, int, float, string, bytes, list, to_list, of_list, Arg, type_of, text, Config,
  Host,
}
use howlframe.Vm.Monad.{
  on_result, on_option, Vm, failed, crashed, lost, pure, ◌>>=◌, ◌>>◌, stop, gets, fail, push, pop,
  pop_many, load_var, store_var, write_out, write_err,
}
use howlframe.Vm.Binop.{Computed, bc_binop, bc_convert, text_of}
use howlframe.Vm.Guard.{charge_alloc, charge_slots, charge_text, charge_texts}

-- A computed value, or the panic.
unfoldable pub lift : {A : Type 0} → Computed A → Vm A
lift (ok a) = pure a
lift (err e) = stop (failed e)

abbrev pub type_error : {A : Type 0} → Opcode → String → List Arg → Vm A
type_error op format args = fail "TYPE_ERROR" op format args

-- `inst.ValueOperand` on the stack.
abbrev pub constant : Program.Value → Val
constant Program.nil = nil
constant (Program.bool b) = bool b
constant (Program.int n) = int n
constant (Program.float f) = float f
constant (Program.string t) = string t

-- `strings.Join`
unfoldable pub join : String → List String → String
join sep [] = ""
join sep (t ∷ []) = t
join sep (t ∷ u ∷ ts) = str_append t (str_append sep (join sep (u ∷ ts)))

-- `collectionLen`, less the texts: `none` for any other value.
unfoldable pub list_length : Val → Option ℕ
list_length (list vs) = some (length (to_list vs))
list_length (bytes bs) = some (length bs)
list_length _ = none

-- `collectionLen`
unfoldable pub collection_len : Val → Option ℕ
collection_len (string t) = some (len t)
collection_len v = list_length v

module _ (host : Host) where
  -- `byteValues[c]`
  abbrev pub byte_value : ℕ → Val
  byte_value c = float (host.float_of_int (pos c))

  -- The items of a list or of bytes, as `bytesToAnySlice` makes them.
  unfoldable pub items_of : Val → List Val
  items_of (list vs) = to_list vs
  items_of (bytes bs) = map byte_value bs
  items_of _ = []

  -- `listElement`, or "" out of range.
  unfoldable pub element_at : Val → ℤ → Val
  element_at v (negsuc i) = string ""
  element_at v (pos i) = elim (get_elem? (items_of v) i) [ none ↦ string "" | some e ↦ e ]

  -- The texts of values, in the state's heap.
  unfoldable pub texts_of : List Val → Vm (List String)
  texts_of vs = gets λ s. map (text_of host s.heap) vs

module _ (host : Host) (config : Config) where
  -- BINOP
  unfoldable pub exec_binop : String → Opcode → Vm (Unit {0})
  exec_binop operator op = do
    b ← pop op
    a ← pop op
    r ← lift (bc_binop host operator a b)
    charge_text config r op
    push r

  -- CONVERT
  unfoldable pub exec_convert : String → Opcode → Vm (Unit {0})
  exec_convert target op = do
    a ← pop op
    heap ← gets (λ s. s.heap)
    r ← lift (bc_convert host heap target a)
    charge_text config r op
    push r

  unfoldable pub split_texts : Val → Val → Opcode → Vm (Unit {0})
  split_texts (string t) (string sep) op = do
    let parts = host.split t sep
    charge_slots config (pos (length parts)) (pos 8) op
    charge_texts config parts op
    push (list (of_list (map string parts)))
  split_texts s sep op =
      type_error op "str_split expected string, got %T and %T" (type_of s ∷ type_of sep ∷ [])

  -- STR_SPLIT
  unfoldable pub exec_str_split : Opcode → Vm (Unit {0})
  exec_str_split op = do sep ← pop op; s ← pop op; split_texts s sep op

  -- `listItems`: what making items of bytes costs.
  unfoldable pub charge_items : Val → Opcode → Vm (Unit {0})
  charge_items (bytes bs) op = charge_slots config (pos (length bs)) (pos 8) op
  charge_items _ op = pure tt

  unfoldable pub join_items : Val → Val → Opcode → Vm (Unit {0})
  join_items v (string sep) op =
      on_option (list_length v)
        (type_error op "str_join expected list and string, got %T and %T"
          (type_of v ∷ type_of (string sep) ∷ []))
        λ n. texts_of host (items_of host v) >>= λ ts.
          charge_alloc config (pos (len (join sep ts))) op >> push (string (join sep ts))
  join_items v sep op =
      type_error op "str_join expected list and string, got %T and %T"
        (type_of v ∷ type_of sep ∷ [])

  -- STR_JOIN
  unfoldable pub exec_str_join : Opcode → Vm (Unit {0})
  exec_str_join op = do sep ← pop op; v ← pop op; charge_items v op; join_items v sep op

  unfoldable pub match_texts : Val → Val → Opcode → Vm (Unit {0})
  match_texts (string pattern) (string t) op =
      on_result (host.match_regex pattern t)
        (λ m. fail "INVALID_REGEX" op "invalid regex: %v" (text m ∷ [])) λ b. push (bool b)
  match_texts pattern v op =
      type_error op "regex_match expected string pattern and string, got %T and %T"
        (type_of pattern ∷ type_of v ∷ [])

  -- REGEX_MATCH
  unfoldable pub exec_regex_match : Opcode → Vm (Unit {0})
  exec_regex_match op = do s ← pop op; pattern ← pop op; match_texts pattern s op

  -- The items of MAKE_LIST, with a charge for each text.
  unfoldable pub pop_items : ℕ → Opcode → List Val → Vm (List Val)
  pop_items zero op vs = pure vs
  pop_items (suc n) op vs = pop op >>= λ v. charge_text config v op >> pop_items n op (v ∷ vs)

  -- `make([]any, n)` where n is negative.
  abbrev pub bad_make : {A : Type 0} → Vm A
  bad_make = stop (crashed "runtime error: makeslice: len out of range")

  -- `make([]any, n)`
  unfoldable pub make_slice : ℤ → Vm (Unit {0})
  make_slice (pos n) =
      if config.outside.slice_fits n
      then (if config.outside.memory_suffices n then pure tt else stop lost)
      else bad_make
  make_slice (negsuc n) = bad_make

  unfoldable pub make_items : ℤ → Opcode → Vm (List Val)
  make_items (pos n) op = make_slice (pos n) >> pop_items n op []
  make_items (negsuc n) op = bad_make

  -- MAKE_LIST
  unfoldable pub exec_make_list : ℤ → Opcode → Vm (Unit {0})
  exec_make_list n op = do
    charge_slots config n (pos 8) op
    vs ← make_items n op
    push (list (of_list vs))

  unfoldable pub append_item : String → Val → Val → Opcode → Vm (Unit {0})
  append_item name current v op =
      on_option (list_length current)
        (type_error op "append expected list, got %T" (type_of current ∷ []))
        λ n.
          charge_slots config (pos (n + 1)) (pos 8) op
          >> charge_text config v op
          >> store_var name (list (of_list (items_of host current ++ v ∷ [])))
          >> pure tt

  -- APPEND: the variable gets a new list.
  unfoldable pub exec_append : String → Opcode → Vm (Unit {0})
  exec_append name op = do v ← pop op; current ← load_var name op; append_item name current v op

  -- `strconv.Atoi(strings.TrimSpace(fmt.Sprint(v)))`
  unfoldable pub index_of : Val → Vm (Option ℤ)
  index_of v = gets λ s. host.parse_int (host.trim_space (host.sprint s.heap v))

  unfoldable pub get_element : String → ℤ → Opcode → Vm (Unit {0})
  get_element name i op = load_var name op >>= λ current.
      on_option (list_length current)
        (type_error op "list_get expected list, got %T" (type_of current ∷ []))
        λ n. push (element_at host current i)

  -- LIST_GET
  unfoldable pub exec_list_get : String → Opcode → Vm (Unit {0})
  exec_list_get name op = do
    v ← pop op
    index ← index_of v
    on_option index (type_error op "list_get index must be a number, got %T" (type_of v ∷ []))
        λ i. get_element name i op

  -- LIST_LEN
  unfoldable pub exec_list_len : Opcode → Vm (Unit {0})
  exec_list_len op = do
    v ← pop op
    on_option (collection_len v)
        (type_error op "list_len expected list, string, or bytes, got %T" (type_of v ∷ []))
        λ n. push (int (pos n))

  unfoldable pub is_nil : Val → Bool
  is_nil nil = true
  is_nil _ = false

  -- IS_NIL
  unfoldable pub exec_is_nil : Opcode → Vm (Unit {0})
  exec_is_nil op = do v ← pop op; push (bool (is_nil v))

  -- ENCODE_JSON
  unfoldable pub exec_encode_json : Opcode → Vm (Unit {0})
  exec_encode_json op = do
    v ← pop op
    heap ← gets (λ s. s.heap)
    on_result (host.encode_json heap v) (λ m. fail "ENCODE_JSON_ERROR" op "%v" (text m ∷ []))
        λ t. charge_alloc config (pos (len t)) op >> push (string t)

  unfoldable pub escape_text : String → Val → Opcode → Vm (Unit {0})
  escape_text name (string t) op =
      charge_alloc config (pos (len (host.html_escape t))) op >> push (string (host.html_escape t))
  escape_text name v op = type_error op "%s expected string, got %T" (text name ∷ type_of v ∷ [])

  -- HTML_ESCAPE and ATTR_ESCAPE
  unfoldable pub exec_escape : String → Opcode → Vm (Unit {0})
  exec_escape name op = do v ← pop op; escape_text name v op

  unfoldable pub equal_texts : Val → Val → Opcode → Vm (Unit {0})
  equal_texts (string a) (string b) op = push (bool (str_eq a b))
  equal_texts _ _ op = type_error op "secure_equal expected strings" []

  -- SECURE_EQUAL
  unfoldable pub exec_secure_equal : Opcode → Vm (Unit {0})
  exec_secure_equal op = do b ← pop op; a ← pop op; equal_texts a b op

  -- CLI_ARGS
  unfoldable pub exec_cli_args : Vm (Unit {0})
  exec_cli_args = push (list (of_list (map string config.args)))

  unfoldable pub argument_at : ℤ → String
  argument_at (negsuc i) = ""
  argument_at (pos i) = elim (get_elem? config.args i) [ none ↦ "" | some t ↦ t ]

  -- CLI_ARGS_GET
  unfoldable pub exec_cli_args_get : Opcode → Vm (Unit {0})
  exec_cli_args_get op = do
    v ← pop op
    index ← index_of v
    on_option index (type_error op "cli_args index must be a number, got %T" (type_of v ∷ []))
        λ i. push (string (argument_at i))

  -- The number of rounds of a loop up to an int.
  abbrev pub rounds : ℤ → ℕ
  rounds (pos n) = n
  rounds (negsuc n) = 0

  -- PRINT
  unfoldable pub exec_print : ℤ → Opcode → Vm (Unit {0})
  exec_print n op = do
    vs ← pop_many (rounds n) op []
    ts ← texts_of host vs
    write_out (str_append (join " " ts) "\n")

  -- STDERR
  unfoldable pub exec_stderr : Opcode → Vm (Unit {0})
  exec_stderr op = do v ← pop op; ts ← texts_of host (v ∷ []); write_err (join "" ts)
