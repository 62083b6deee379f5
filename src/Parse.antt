-- ===== src/Parse.antt =====
-- internal/parser/parser.go: `ParseExpression` and `ReportTrailing`, over any source of tokens.
pub mod Ends
pub mod RoundTrip
use howlframe.Common.Result.{Result, err, ok, ◌>>=◌}
use howlframe.Ast.{Node, NodeType, Nodes, node, nil, cons}
use howlframe.Common.{str_eq, if◌then◌else◌, ℕ, zero, suc, ◌-◌, ◌==◌, String, Bool, true, false}

-- `TokenType` and `Token` of internal/lexer/lexer.go.
pub data TokenType : Type 0 where
  l_paren r_paren symbol int float string eof : TokenType

pub record Token : Type 0 where
  pub type : TokenType
  pub value : String
  pub line : ℕ
  pub column : ℕ

-- The reports of the parser, each with its line and column. `lexer_report` is one of the lexer, and
-- `out_of_fuel` has no counterpart in the program.
pub data ParseError : Type 0 where
  lexer_report : String → ℕ → ℕ → ParseError
  unclosed : String → ℕ → ℕ → ℕ → ParseError
  unexpected_token : String → ℕ → ℕ → ParseError
  extra_paren : String → ℕ → ℕ → ℕ → ParseError
  closed_early : String → ℕ → ℕ → ℕ → ℕ → ℕ → ℕ → ParseError
  trailing_tokens : ℕ → ℕ → ParseError
  out_of_fuel : ParseError

-- `Parser`, over the state `S` of its lexer.
pub record Parser (S : Type 0) : Type 0 where
  pub lexer : S
  pub cur : Token
  pub filename : String
  pub depth : ℕ
  pub root_head : String
  pub root_line : ℕ
  pub root_column : ℕ
  pub root_close_line : ℕ
  pub root_close_column : ℕ

-- The word at the head of a list, for messages.
unfoldable pub head_word : Nodes → String
head_word nil = "(empty)"
head_word (cons (node NodeType.symbol v cs l c f) ns) = v
head_word (cons n ns) = "(empty)"

unfoldable pub ends_list : TokenType → Bool
ends_list r_paren = true
ends_list eof = true
ends_list _ = false

abbrev pub is_r_paren : TokenType → Bool
is_r_paren r_paren = true
is_r_paren _ = false

-- What a parser keeps of a list that was closed at the top level.
unfoldable pub closed_root : {S : Type 0} → Token → Nodes → Parser S → Parser S
unfolding head_word
closed_root opening children p =
    if p.depth == 0
    then record p {
      root_head = head_word children;
      root_line = opening.line;
      root_column = opening.column;
      root_close_line = p.cur.line;
      root_close_column = p.cur.column;
    }
    else p

-- A parser over a lexer, `next_token` being its `NextToken`.
module _ {S : Type 0} (next_token : S → Result ParseError (Token × S)) where
  -- `p.Cur = p.lexer.NextToken()`
  unfoldable pub advance : Parser S → Result ParseError (Parser S)
  advance p = do (token, lexer) ← next_token p.lexer; ok (record p { cur = token; lexer = lexer })

  -- `NewParser`
  unfoldable pub new_parser : S → String → Result ParseError (Parser S)
  new_parser lexer filename = do
    (cur, rest) ← next_token lexer
    ok (record {
      lexer = rest;
      cur = cur;
      filename = filename;
      depth = 0;
      root_head = "";
      root_line = 0;
      root_column = 0;
      root_close_line = 0;
      root_close_column = 0;
    })

  unfoldable pub parse_atom : NodeType → Parser S → Result ParseError (Node × Parser S)
  unfolding advance
  parse_atom t p = do
    q ← advance p
    ok (node t p.cur.value nil p.cur.line p.cur.column p.filename, q)

  -- The end of a list that began at `opening`.
  unfoldable pub close_list : Token → Nodes → Parser S → Result ParseError (Node × Parser S)
  unfolding closed_root advance
  close_list opening children p =
      if is_r_paren p.cur.type
      then (do
        q ← advance (closed_root opening children (record p { depth = p.depth - 1 }))
        ok (node NodeType.list "" children opening.line opening.column p.filename, q))
      else err (unclosed (head_word children) p.cur.line opening.line opening.column)

  abbrev pub unexpected : Token → Result ParseError (Node × Parser S)
  unexpected token = err (unexpected_token token.value token.line token.column)

  unfoldable mutual
    unfolding advance parse_atom close_list

    -- `ParseExpression`, with fuel.
    pub parse_expression : ℕ → Parser S → Result ParseError (Node × Parser S)
    parse_expression zero p = err out_of_fuel
    parse_expression (suc fuel) p = elim p.cur.type [
      | l_paren ↦ (do
        opened ← advance p
        (children, q) ← parse_children fuel (record opened { depth = suc p.depth })
        close_list p.cur children q)
      | r_paren ↦ unexpected p.cur
      | symbol ↦ parse_atom NodeType.symbol p
      | int ↦ parse_atom NodeType.int p
      | float ↦ parse_atom NodeType.float p
      | string ↦ parse_atom NodeType.string p
      | eof ↦ unexpected p.cur
    ]

    -- The loop over the children of a list.
    pub parse_children : ℕ → Parser S → Result ParseError (Nodes × Parser S)
    parse_children zero p = err out_of_fuel
    parse_children (suc fuel) p = if ends_list p.cur.type then ok (nil, p) else (do
      (n, q) ← parse_expression fuel p
      (ns, r) ← parse_children fuel q
      ok (cons n ns, r))

-- `ReportTrailing`
unfoldable pub report_trailing : {S : Type 0} → Parser S → ParseError
report_trailing p =
    if is_r_paren p.cur.type
    then extra_paren p.root_head p.root_line p.cur.line p.cur.column
    else if str_eq p.root_head ""
    then trailing_tokens p.cur.line p.cur.column
    else closed_early p.root_head p.root_line p.root_column p.cur.line p.cur.column
        p.root_close_line p.root_close_column
