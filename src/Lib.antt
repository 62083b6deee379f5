-- ===== src/Lib.antt =====
-- The trusted core of HowlFrame: the tree, the bytecode compiler, the artifact format, the checks
-- that stand between an artifact and the virtual machine, and the machine itself.
--
-- A program is parsed into a tree (internal/parser, internal/ast), expanded by passes that are not
-- modelled here, and lowered by `CompileToBytecode` (internal/bytecode/bytecode.go):
-- `ScopeBindings` (scoping.go) first gives shadowing bindings fresh names, then `compileNode`
-- lowers the tree into a `BCProgram`, a main code and a map of functions, all lists of
-- instructions. The opcode registry (opcode.go) gives each opcode its name, operands and
-- capability; the arity table (internal/construct/arity.go) is what the compiler tests a call
-- against. `WriteArtifact` (artifact.go) puts a program into bytes, `ReadArtifact` takes it out
-- again, and `ValidateProgram` is run on every program that is read. `RequiredCapabilities`
-- (required_capabilities.go) lists what a program may need before it is run. `runBytecodeEvidence`
-- (internal/vm/vm.go) runs it under a policy of limits and a set of grants (internal/capability).
--
-- Files:
--   Common              Boolean tests, lists, association lists, texts in order, integers, results
--   Ast                 internal/ast/ast.go: `Node`, `ParamNames`, `Stringify`
--   Capability          internal/capability/capability.go: the capabilities, `All`, `StoreRequirements`
--   Opcode              internal/bytecode/opcode.go: the opcodes, `Registry`, `NameToOpcode`
--   Program             internal/bytecode/bytecode.go: `BCInstruction`, `BCFunction`, `BCProgram`
--   Parse               internal/parser/parser.go: `ParseExpression`, `ReportTrailing`, over any lexer
--   Lex                 internal/lexer/lexer.go: `NextToken`, over the code points of a source
--   Arity               internal/construct/arity.go: the arity table, `LookupArity`
--   Scope               internal/bytecode/scoping.go: `ScopeBindings` (`scope_bindings`, in Scope/Walk)
--   Compile             internal/bytecode/bytecode.go: `compileNode` by groups of constructs (Emit,
--                       Table, Grants, Server, Forms, Effects, Children, Switch), `CompileToBytecode`
--                       (`compile_program`, in Compile/Switch)
--   Validate            internal/bytecode/artifact.go: `ValidateProgram`, `validateInstructions`
--   Artifact            internal/bytecode/artifact.go: `newArtifactPayload`, `program`; Envelope has
--                       `WriteArtifact`, `WriteValidatedArtifact` and `resolveArtifactOpcodeNames`,
--                       Read has `ReadArtifact`
--   Report              internal/bytecode/required_capabilities.go: `RequiredCapabilities`
--   Capability/Grants   internal/capability/grants.go, process.go, network.go: `Grants.Has`,
--                       `HasCoarse`, `HasFetch`, `AuthorizeFetch`, `Attenuate`, `covers`
--   Vm                  internal/vm/vm.go and error.go. Value has the state and the host, Monad the
--                       ends of code and the stack, Float, Integer, Numeric and Binop the operators,
--                       Guard what is checked before an instruction, Data, Maps, Control and Calls
--                       the instructions, Run `vm.run` (`run`) and `runBytecodeEvidence`
-- The children of these files that are named for a predicate or a fact hold the proofs.
--
-- The compiler is a state monad over the functions compiled so far, with four outcomes: a result,
-- a reported error (`ast.ReportError` ends the process), a Go panic (an index out of range) and
-- fuel spent. Fuel bounds the recursion of `compileNode`, and the compiler is run with the depth
-- of the tree and one more. `compile_program` is `CompileToBytecode` behind its call of
-- `ast.Desugar`. The parser has fuel too, of which the size of the tree is enough, and so is twice
-- the length of the text and four more. A Go map is an association list whose first entry of a key
-- counts. A float is its IEEE 754 bit pattern. Nodes that the source changes in place are returned
-- changed, in a tree that has no node twice.
--
-- The machine is a state monad whose state comes back after a panic too: VmReturn, VmExit, a
-- *VMError and a panic of Go are ends of code, and TRY_LET, CALL and SPAWN_AGENT take them as the
-- deferred functions of the source do. Environments are a list, the innermost first; a map lives
-- in a heap, so that two variables can share it, and a list, which no instruction changes in
-- place, is its items. `vm.run` is on fuel, one unit for each round; nested runs take what is
-- left, and one unit more than the instruction limit is enough. Code that does not come back,
-- since an instruction of the host blocks (HTTP_SERVER_SERVE while it serves) or the Go runtime
-- has no memory for a slice and ends the process, is `lost`; `Outside`, a part of the settings,
-- says when.
--
-- Parameters: `strconv.ParseInt`, `strconv.ParseFloat`, `strings.TrimSpace`, the grant parser of
-- internal/capability and the route parser of internal/httpreq are fields of `Services`;
-- encoding/gob and crypto/sha256 are fields of `Codec`, and `CodecLaws` says what the round trip
-- needs of them; the lexer is an argument of the parser, and the classes of unicode and
-- `strconv.Unquote` are fields of `Unicode`, an argument of the lexer; `FetchGrantForURL`, which
-- rests on net/url, is an argument of the report. `Host` has the Go functions that the machine
-- calls (float64 arithmetic, fmt, strconv, strings, regexp, html, encoding/json), the parsers of
-- grants and URLs, the deadline, and the effect of each instruction that is not modelled: it may
-- change the stack, the heap, the output and the outside, bind variables, charge memory and fail.
-- An instruction that needs a capability may change the `world`, one that needs none only the
-- `session`.
--
-- Not modelled: the instructions of the machine that read or write files, the network, processes,
-- databases, HTTP exchanges, the input, the clock and random numbers; the synthesis of functions;
-- its traces, receipts and map ledger; the interpreter of trees; included files, desugaring, the
-- checker, the parsers of grants and the path checks, the other backends, HFIR, and the command
-- line.
pub mod Common
pub mod Ast
pub mod Capability
pub mod Opcode
pub mod Program
pub mod Validate
pub mod Arity
pub mod Compile
pub mod Scope
pub mod Artifact
pub mod Report
pub mod Parse
pub mod Vm
pub mod Lex
