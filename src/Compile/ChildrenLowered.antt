-- ===== src/Compile/ChildrenLowered.antt =====
-- The cases of Compile/Children and Compile/Server produce code of the compiled shape.
use howlframe.Common.{
  str_eq, if◌then◌else◌, List, ◌+◌, arith, Bool, Option, String, pos, refl, false, true, ◌∷◌, [],
  none, some, ◌<◌, ◌≤◌, ℕ,
}
use howlframe.Opcode.{
  spec_of, spawn, spawn_agent, http_route, http_server_start, http_server_serve, task,
}
use howlframe.Program.{instruction}
use howlframe.Ast.{Node, depth, value}
use howlframe.Compile.Monad.{Services, Compile, ◌>>=◌, child, Recur}
use howlframe.Compile.Emit.{with_int, with_string}
use howlframe.Compile.Lowered.{
  Lowered, empty, join, plain, holder, Lowered-snoc, is_plain, holds_body,
}
use howlframe.Compile.Ensures.{
  Ensures, Ensures-pure, Ensures-bind, Ensures-then, Ensures-if, Ensures-report, Ensures-report_if,
  Ensures-child, Ensures-last_child, Ensures-rest, Lowers, AllBelow, Ensures-compile_list,
  Ensures-compile_at,
}
use howlframe.Compile.Grants.{
  parsed_grant, compile_spawn_grants, compile_grant, compile_grant_entries,
}
use howlframe.Compile.Children.{optional_grants, compile_spawn, compile_agent, compile_agent_task}
use howlframe.Compile.Server.{
  compile_server, compile_route, server_grants, compile_start, compile_server_children,
  route_checked,
}

-- An action that yields any text.
abbrev Total : Compile String → Type 0
Total = Ensures (λ _. Unit)

module _ (services : Services) where
  parsed_grant-Total : (o : Option String) (entry : Node) → Total (parsed_grant o entry)
  parsed_grant-Total none entry = Ensures-report _ entry
  parsed_grant-Total (some grant) entry = Ensures-pure grant tt

  compile_grant-Total : (entry : Node) → Total (compile_grant services entry)
  unfolding compile_grant
  compile_grant-Total entry = Ensures-then (Ensures-report_if _ _ entry) (
      Ensures-if _ (Ensures-pure _ tt)
        (parsed_grant-Total (services.parse_grant (value entry)) entry))

  compile_grant_entries-Total :
      (first : Bool) (entries : List Node) → Total (compile_grant_entries services first entries)
  unfolding compile_grant_entries
  compile_grant_entries-Total first [] = Ensures-pure _ tt
  compile_grant_entries-Total first (entry ∷ entries) =
      Ensures-bind (compile_grant-Total entry)
        λ _ _. Ensures-bind (compile_grant_entries-Total false entries) λ _ _. Ensures-pure _ tt

  compile_spawn_grants-Total : (n : Node) → Total (compile_spawn_grants services n)
  unfolding compile_spawn_grants
  compile_spawn_grants-Total n = Ensures-then (Ensures-report_if _ _ n) (
      Ensures-bind (Ensures-rest (depth n) n 1 (omega arith))
        λ entries _. compile_grant_entries-Total true entries)

  -- The grants at a child, or a text.
  grants_at-Total : (n : Node) (i : ℕ) → Total (child n i >>= compile_spawn_grants services)
  grants_at-Total n i =
      Ensures-bind (Ensures-child (depth n) n i (omega arith)) λ c _. compile_spawn_grants-Total c

  optional_grants-Total : (size i : ℕ) (n : Node) → Total (optional_grants services size i n)
  unfolding optional_grants
  optional_grants-Total size i n = Ensures-if _ (grants_at-Total n i) (Ensures-pure _ tt)

  server_grants-Total : (found : String) (ns : List Node) → Total (server_grants services found ns)
  unfolding server_grants
  server_grants-Total found [] = Ensures-pure _ tt
  server_grants-Total found (n ∷ ns) =
      Ensures-if _
        (Ensures-then (Ensures-report_if _ _ n) (
          Ensures-bind (compile_spawn_grants-Total n)
            λ grants _. server_grants-Total (if str_eq grants "" then "\n" else grants) ns))
        (server_grants-Total found ns)

  module _ (d : ℕ) (rec : Recur) (ih : Lowers d rec) where
    pub Ensures-compile_spawn :
        (n : Node) → depth n ≤ d → Ensures Lowered (compile_spawn services rec n)
    unfolding compile_spawn holds_body spec_of
    Ensures-compile_spawn n h = Ensures-bind (Ensures-last_child d n h) λ closure hc.
        Ensures-bind (optional_grants-Total 3 1 n) λ grants _.
          Ensures-bind (Ensures-compile_at d rec ih closure 2 (omega arith))
            λ body hb. Ensures-pure _ (holder (with_string "SPAWN" spawn grants) (refl, refl) hb)

    pub Ensures-compile_agent_task :
        (job : Node)
        → depth job < d
        → Ensures (λ p. Lowered p.0 × Lowered p.1) (compile_agent_task services rec job)
    unfolding compile_agent_task is_plain spec_of
    Ensures-compile_agent_task job h =
        Ensures-if _
          (Ensures-bind (Ensures-child d job 1 (omega arith)) λ description _.
            Ensures-bind (Ensures-rest d job 2 (omega arith)) λ statements hs.
              Ensures-bind (Ensures-compile_list d rec ih statements hs) λ body hb.
                Ensures-pure _
                  (plain (with_string "TASK" task (value description)) (refl, refl), hb))
          (Ensures-bind (ih job h) λ code hc. Ensures-pure _ (hc, empty))

    pub Ensures-compile_agent :
        (n : Node) → depth n ≤ d → Ensures Lowered (compile_agent services rec n)
    unfolding compile_agent holds_body spec_of
    Ensures-compile_agent n h = Ensures-bind (Ensures-child d n 1 h) λ name _.
        Ensures-bind (Ensures-last_child d n h) λ job hj.
          Ensures-bind (optional_grants-Total 4 2 n) λ grants _.
            Ensures-bind (Ensures-compile_agent_task job hj) λ (front, body) (hf, hb).
              Ensures-pure _ (
                join hf (
                  holder
                    (record (with_string "SPAWN_AGENT" spawn_agent (value name)) {
                      string_operand2 = grants;
                    })
                    (refl, refl) hb))

    pub Ensures-compile_start :
        (port : Node) (flags : ℕ) → depth port < d → Ensures Lowered (compile_start rec port flags)
    unfolding compile_start is_plain spec_of
    Ensures-compile_start port flags h =
        Ensures-if _
          (Ensures-pure _ (
            plain
              (record (with_int "HTTP_SERVER_START" http_server_start (pos flags)) {
                string_operand = value port;
              })
              (refl, refl)))
          (Ensures-bind (ih port h) λ code hc. Ensures-pure _ (
            Lowered-snoc (with_int "HTTP_SERVER_START" http_server_start (pos (flags + 1))) hc
              (refl, refl)))

    route_checked-Total :
        (o : Option String) (path : Node) → Ensures (λ _. Unit) (route_checked o path)
    route_checked-Total none path = Ensures-pure tt tt
    route_checked-Total (some message) path = Ensures-report _ path

    pub Ensures-compile_route :
        (found : String) (route : Node)
        → depth route < d
        → Ensures Lowered (compile_route services rec found route)
    unfolding compile_route holds_body spec_of
    Ensures-compile_route found route h =
        Ensures-bind (Ensures-child d route 1 (omega arith)) λ path _.
          Ensures-then (route_checked-Total (services.route_error (value path)) path) (
            Ensures-bind (Ensures-last_child d route (omega arith)) λ handler hh.
              Ensures-bind (Ensures-if _ (grants_at-Total route 2) (Ensures-pure _ tt)) λ grants _.
                Ensures-bind (Ensures-child d handler 1 (omega arith)) λ params hp.
                  Ensures-bind (Ensures-child d params 0 (omega arith)) λ req _.
                    Ensures-bind (Ensures-child d handler 2 (omega arith)) λ tree ht.
                      Ensures-bind (ih tree ht) λ body hb. Ensures-pure _ (
                        holder
                          (record (with_string "HTTP_ROUTE" http_route (value path)) {
                            string_operand2 = value req;
                            string_operand3 = grants;
                          })
                          (refl, refl) hb))

    pub Ensures-compile_server_children :
        (found : String) (ns : List Node)
        → AllBelow d ns
        → Ensures Lowered (compile_server_children services rec found ns)
    unfolding compile_server_children
    Ensures-compile_server_children found [] h = Ensures-pure [] empty
    Ensures-compile_server_children found (n ∷ ns) (h, hs) =
        Ensures-bind
          (Ensures-if _ (Ensures-pure [] empty)
            (Ensures-if _ (Ensures-compile_route found n h) (ih n h)))
          λ a ha.
            Ensures-bind (Ensures-compile_server_children found ns hs)
              λ b hb. Ensures-pure _ (join ha hb)

    pub Ensures-compile_server :
        (n : Node) → depth n ≤ d → Ensures Lowered (compile_server services rec n)
    unfolding compile_server is_plain spec_of
    Ensures-compile_server n h = Ensures-bind (Ensures-child d n 1 h) λ port hp.
        Ensures-bind (Ensures-rest d n 2 h) λ forms hf.
          Ensures-bind (Ensures-compile_start port _ hp) λ start hs.
            Ensures-bind (server_grants-Total "" forms) λ found _.
              Ensures-bind (Ensures-compile_server_children found forms hf) λ routes hr.
                Ensures-pure _ (
                  join hs (
                    Lowered-snoc (instruction "HTTP_SERVER_SERVE" http_server_serve) hr
                      (refl, refl)))
