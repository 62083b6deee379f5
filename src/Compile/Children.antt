-- ===== src/Compile/Children.antt =====
-- The cases "spawn" and "spawn_agent" of `compileNode` of internal/bytecode/bytecode.go.
use howlframe.Common.{◌==◌, leb, String, ◌&&◌, ℕ, ◌∷◌, [], ◌++◌, length, if◌then◌else◌}
use howlframe.Opcode.{spawn, spawn_agent, task}
use howlframe.Ast.{Node, value, children, is_form}
use howlframe.Compile.Monad.{
  Services, Compile, Code, Recur, ◌>>=◌, pure, rest, child, last_child, compile_list, compile_at,
}
use howlframe.Compile.Emit.{with_string, emit_body}
use howlframe.Compile.Grants.{compile_spawn_grants}

module _ (services : Services) where
  -- The grants at child `i`, where the form has `size` children.
  unfoldable pub optional_grants : ℕ → ℕ → Node → Compile String
  optional_grants size i n =
      if length (children n) == size then (child n i >>= compile_spawn_grants services) else pure ""

  -- (spawn [grants] (lambda params body))
  unfoldable pub compile_spawn : Recur → Node → Compile Code
  compile_spawn rec n = do
    closure ← last_child n
    grants ← optional_grants 3 1 n
    body ← compile_at rec closure 2
    pure (emit_body (with_string "SPAWN" spawn grants) body)

  -- The code in front of SPAWN_AGENT and the body behind it: a (task description statements...)
  -- is taken apart, anything else is an operand with no body.
  unfoldable pub compile_agent_task : Recur → Node → Compile (Code × Code)
  compile_agent_task rec job =
      if is_form "task" job && leb 2 (length (children job))
      then (do
        description ← child job 1
        statements ← rest job 2
        body ← compile_list rec statements
        pure (with_string "TASK" task (value description) ∷ [], body))
      else (rec job >>= λ code. pure (code, []))

  -- (spawn_agent name [grants] task)
  unfoldable pub compile_agent : Recur → Node → Compile Code
  unfolding compile_agent_task
  compile_agent rec n = do
    name ← child n 1
    job ← last_child n
    grants ← optional_grants 4 2 n
    (front, body) ← compile_agent_task rec job
    pure (
        front
        ++ emit_body
            (record (with_string "SPAWN_AGENT" spawn_agent (value name)) {
              string_operand2 = grants;
            })
            body)
