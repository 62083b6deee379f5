-- ===== src/Compile/Emit.antt =====
-- The instruction sequences that `compileNode` of internal/bytecode/bytecode.go builds from the
-- code of its parts.
use howlframe.Opcode.{
  Opcode, load_const, convert, http_request, map_get, binop, jump, jump_if_false, for_init,
  for_next, try_let,
}
use howlframe.Program.{Value, bool, string, Instruction, instruction}
use howlframe.Compile.Monad.{Code}
use howlframe.Common.{
  false, sub_ℕ, str_eq, true, [], ◌+◌, if◌then◌else◌, ◌∷◌, length, pos, ◌++◌, ℕ, ℤ, String,
}

abbrev pub load : Value → Instruction
load v = record (instruction "LOAD_CONST" load_const) { value_operand = v }

abbrev pub with_int : String → Opcode → ℤ → Instruction
with_int name op n = record (instruction name op) { int_operand = n }

abbrev pub with_string : String → Opcode → String → Instruction
with_string name op s = record (instruction name op) { string_operand = s }

abbrev pub jump_by : ℤ → Instruction
jump_by offset = with_int "JUMP" jump offset

abbrev pub jump_unless : ℕ → Instruction
jump_unless offset = with_int "JUMP_IF_FALSE" jump_if_false (pos offset)

-- "if", with no else code or with some.
unfoldable pub emit_if : Code → Code → Code → Code
emit_if test consequent [] = test ++ jump_unless (length consequent + 1) ∷ consequent
emit_if test consequent (e ∷ es) =
    test
    ++ jump_unless (length consequent + 2)
      ∷ (consequent ++ jump_by (pos (length (e ∷ es) + 1)) ∷ (e ∷ es))

-- "while"
unfoldable pub emit_while : Code → Code → Code
emit_while test body =
    test
    ++ jump_unless (length body + 2)
      ∷ (body ++ jump_by (sub_ℕ 0 (length test + 1 + length body)) ∷ [])

-- "for"
unfoldable pub emit_for : String → Code → Code → Code
emit_for item items body =
    items
    ++ instruction "FOR_INIT" for_init
      ∷ record (with_string "FOR_NEXT" for_next item) { int_operand = pos (length body + 2) }
      ∷ (body ++ jump_by (sub_ℕ 0 (length body + 1)) ∷ [])

-- "try_let"
unfoldable pub emit_try : String → String → Code → Code → Code → Code
emit_try name error value catch success =
    record (with_string "TRY_LET" try_let name) {
      string_operand2 = error;
      int_operand = pos (length value);
      int_operand2 = pos (length catch);
      int_operand3 = pos (length success);
    }
    ∷ (value ++ (catch ++ success))

-- "spawn", "spawn_agent" and a route: an instruction in front of the body whose length it holds.
unfoldable pub emit_body : Instruction → Code → Code
emit_body head body = record head { int_operand = pos (length body) } ∷ body

-- `FetchWithBody`
unfoldable pub fetch_with_body : Code → Code
fetch_with_body body =
    body
    ++ with_string "CONVERT" convert "to_string"
      ∷ with_int "HTTP_REQUEST" http_request (pos 1)
      ∷ load (string "body")
      ∷ instruction "MAP_GET" map_get
      ∷ []

unfoldable pub emit_and : Code → Code → Code
emit_and left right =
    left
    ++ jump_unless (length right + 4)
      ∷ (right
          ++ load (bool true)
            ∷ with_string "BINOP" binop "and"
            ∷ jump_by (pos 2)
            ∷ load (bool false)
            ∷ [])

unfoldable pub emit_or : Code → Code → Code
emit_or left right =
    left
    ++ jump_unless 3
      ∷ load (bool true)
      ∷ jump_by (pos (length right + 3))
      ∷ (right ++ load (bool false) ∷ with_string "BINOP" binop "or" ∷ [])

-- `ShortCircuit`
unfoldable pub short_circuit : String → Code → Code → Code
unfolding emit_and emit_or
short_circuit op left right = if str_eq op "and" then emit_and left right else emit_or left right
