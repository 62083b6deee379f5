-- ===== src/Parse/RoundTrip.antt =====
-- The parser reads back the tokens of a tree.
use howlframe.Common.{
  ap, le_refl, ◌∙◌, false, true, ◌==◌, Bool-cases, ◌-◌, inr, inl, ℕ, zero, suc, ◌+◌, ◌≤◌, ◌≡◌, refl,
  ◌++◌, arith, String, List, [], ◌∷◌,
}
use howlframe.Common.Result.{Result, ok}
use howlframe.Ast.{Node, NodeType, Nodes, node, nil, cons}
use howlframe.Parse.{
  parse_children, parse_expression, ends_list, is_r_paren, closed_root, close_list, TokenType,
  advance, parse_atom, Parser, r_paren, l_paren, ParseError, Token, TokenType,
}

abbrev atom_type : NodeType → TokenType
atom_type NodeType.list = l_paren
atom_type NodeType.symbol = TokenType.symbol
atom_type NodeType.int = TokenType.int
atom_type NodeType.float = TokenType.float
atom_type NodeType.string = TokenType.string

abbrev closing : Token
closing = record { type = r_paren; value = ")"; line = 1; column = 1 }

unfoldable mutual
  -- The tokens of a tree. The place of a closing parenthesis is no part of the tree: `closing` stands
  -- for one at any place.
  pub tokens : Node → List Token
  tokens (node NodeType.list v cs l c f) =
      record { type = l_paren; value = "("; line = l; column = c } ∷ (tokens_all cs ++ closing ∷ [])
  tokens (node t v cs l c f) = record { type = atom_type t; value = v; line = l; column = c } ∷ []

  pub tokens_all : Nodes → List Token
  tokens_all nil = []
  tokens_all (cons n ns) = tokens n ++ tokens_all ns

unfoldable mutual
  -- A tree as the parser of this file builds it: lists have no value and atoms no children.
  pub IsParsed : String → Node → Type 0
  IsParsed file (node NodeType.list v cs l c f) = (v ≡ "") × (f ≡ file) × AllParsed file cs
  IsParsed file (node t v cs l c f) = (cs ≡ nil) × (f ≡ file)

  pub AllParsed : String → Nodes → Type 0
  AllParsed file nil = Unit
  AllParsed file (cons n ns) = IsParsed file n × AllParsed file ns

unfoldable mutual
  -- The fuel that a tree needs.
  pub size : Node → ℕ
  size (node t v cs l c f) = suc (size_all cs)

  pub size_all : Nodes → ℕ
  size_all nil = 1
  size_all (cons n ns) = suc (size n + size_all ns)

-- A token of a source is the one of the tree, or both are closing parentheses, at any places.
abbrev pub Matches : TokenType → Token → Token → Type 0
Matches r_paren cur t = cur.type ≡ r_paren
Matches _ cur t = cur ≡ t

module _ {S : Type 0} (next_token : S → Result ParseError (Token × S)) where
  -- From a current token and a lexer, the tokens come next, up to another current token and lexer.
  abbrev pub Ahead : Token → S → List Token → Token → S → Type 0
  Ahead cur s [] cur' s' = (cur ≡ cur') × (s ≡ s')
  Ahead cur s (t ∷ ts) cur' s' =
      Matches t.type cur t
      × (second : Token) × (rest : S) × (next_token s ≡ ok (second, rest))
      × Ahead second rest ts cur' s'

  Ahead-append :
      (cur : Token) (s : S) (ts us : List Token) (cur' : Token) (s' : S)
      → Ahead cur s (ts ++ us) cur' s'
      → (middle : Token) × (m : S) × Ahead cur s ts middle m × Ahead middle m us cur' s'
  Ahead-append cur s [] us cur' s' h = (cur, s, (refl, refl), h)
  Ahead-append cur s (t ∷ ts) us cur' s' (e, second, rest, next, h) =
      let (middle, m, front, back) = Ahead-append second rest ts us cur' s' h in
      (middle, m, (e, second, rest, next, front), back)

  -- The parser read a tree, and stands where the tokens of the tree end.
  abbrev pub Parses :
      {A : Type 0} → Result ParseError (A × Parser S) → A → Parser S → Token → S → Type 0
  Parses r a p cur s =
      (q : Parser S) × (r ≡ ok (a, q))
      × (q.cur ≡ cur)
      × (q.lexer ≡ s)
      × (q.depth ≡ p.depth)
      × (q.filename ≡ p.filename)

  parse_atom-Parses :
      (t : NodeType) (p : Parser S) (v : String) (l c : ℕ) (cur : Token) (s : S)
      → p.cur ≡ record { type = atom_type t; value = v; line = l; column = c }
      → next_token p.lexer ≡ ok (cur, s)
      → Parses (parse_atom next_token t p) (node t v nil l c p.filename) p cur s
  unfolding parse_atom advance
  parse_atom-Parses t p v l c cur s e next =
      (record p { cur = cur; lexer = s }, rw (next, e) refl, refl, refl, refl, refl)

  closed_root-keeps :
      (opening : Token) (children : Nodes) (p : Parser S)
      → ((closed_root opening children p).lexer ≡ p.lexer)
        × ((closed_root opening children p).depth ≡ p.depth)
        × ((closed_root opening children p).filename ≡ p.filename)
  unfolding closed_root
  closed_root-keeps opening children p = elim (Bool-cases (p.depth == 0)) [
    | inl z ↦ rw z (refl, refl, refl)
    | inr z ↦ rw z (refl, refl, refl)
  ]

  close_list-Parses :
      (opening : Token) (children : Nodes) (q : Parser S) (cur : Token) (s : S)
      → q.cur.type ≡ r_paren
      → next_token q.lexer ≡ ok (cur, s)
      → (after : Parser S) × (close_list next_token opening children q
          ≡ ok (node NodeType.list "" children opening.line opening.column q.filename, after))
        × (after.cur ≡ cur)
        × (after.lexer ≡ s)
        × (after.depth ≡ q.depth - 1)
        × (after.filename ≡ q.filename)
  unfolding close_list closed_root advance
  close_list-Parses opening children q cur s e next =
      let less = record q { depth = q.depth - 1 } in
      let root = closed_root opening children less in
      let paren : is_r_paren q.cur.type ≡ true = rw e refl in
      let (lexers, depths, files) = closed_root-keeps opening children less in
      (
        record root { cur = cur; lexer = s },
        rw (paren, lexers, next) refl,
        refl,
        refl,
        depths,
        files,
      )

  Ahead-not_end :
      (n : Node) (file : String) (cur : Token) (s : S) (us : List Token) (cur' : Token) (s' : S)
      → Ahead cur s (tokens n ++ us) cur' s'
      → ends_list cur.type ≡ false
  unfolding tokens ends_list
  Ahead-not_end (node NodeType.list v cs l c f) file cur s us cur' s' h = rw (h.0) refl
  Ahead-not_end (node NodeType.symbol v cs l c f) file cur s us cur' s' h = rw (h.0) refl
  Ahead-not_end (node NodeType.int v cs l c f) file cur s us cur' s' h = rw (h.0) refl
  Ahead-not_end (node NodeType.float v cs l c f) file cur s us cur' s' h = rw (h.0) refl
  Ahead-not_end (node NodeType.string v cs l c f) file cur s us cur' s' h = rw (h.0) refl

  parse_expression-list :
      (fuel : ℕ) (p : Parser S) (t : Token) (l : S) (children : Nodes) (q : Parser S)
      {r : Result ParseError (Node × Parser S)}
      → p.cur.type ≡ l_paren
      → next_token p.lexer ≡ ok (t, l)
      → parse_children next_token fuel (record p { cur = t; lexer = l; depth = suc p.depth })
        ≡ ok (children, q)
      → close_list next_token p.cur children q ≡ r
      → parse_expression next_token (suc fuel) p ≡ r
  unfolding parse_expression advance
  parse_expression-list fuel p t l children q kind next run closed = simp (kind, next, run) closed

  ends_list-closing : (t : Token) → t.type ≡ r_paren → ends_list t.type ≡ true
  unfolding ends_list
  ends_list-closing t e = rw e refl

  mutual
    unfolding parse_expression tokens IsParsed size

    parse_expression-Parses :
        (fuel : ℕ) (n : Node) (p : Parser S) (cur : Token) (s : S)
        → size n ≤ fuel
        → IsParsed p.filename n
        → Ahead p.cur p.lexer (tokens n) cur s
        → Parses (parse_expression next_token fuel p) n p cur s
    parse_expression-Parses zero (node t v cs l c f) p cur s b h a = absurd (omega (arith, b))
    parse_expression-Parses (suc fuel) (node NodeType.list v cs l c f) p cur s b (ev, ef, h)
          (e, t₁, s₁, n₁, a) =
        let (middle, m, front, (mc, t₂, s₂, n₂, (e₁, e₂))) =
          Ahead-append t₁ s₁ (tokens_all cs) (closing ∷ []) cur s a in
        let opened = record p { cur = t₁; lexer = s₁; depth = suc p.depth } in
        let (q, run, qc, ql, qd, qf) =
          parse_children-Parses fuel cs opened middle m (omega (arith, b)) h front
            (ends_list-closing middle mc) in
        let (after, ran, ac, al, ad, af) =
          close_list-Parses p.cur cs q cur s (ap (λ t. t.type) qc ∙ mc) (rw (ql, ← e₁, ← e₂) n₂) in
        let kind : p.cur.type ≡ l_paren = rw e refl in
        let line : p.cur.line ≡ l = rw e refl in
        let column : p.cur.column ≡ c = rw e refl in
        let built : node NodeType.list "" cs p.cur.line p.cur.column q.filename
            ≡ node NodeType.list v cs l c f =
          rw (line, column, qf, ev, ef) refl in
        (
          after,
          parse_expression-list fuel p t₁ s₁ cs q kind n₁ run (ran ∙ ap (λ m. ok (m, after)) built),
          ac,
          al,
          omega (arith, ad, qd),
          af ∙ qf,
        )
    parse_expression-Parses (suc fuel) (node NodeType.symbol v cs l c f) p cur s b (ec, ef)
          (e, t₁, s₁, n₁, (e₁, e₂)) =
        let kind : p.cur.type ≡ TokenType.symbol = rw e refl in
        rw (kind, ec, ef) (parse_atom-Parses NodeType.symbol p v l c cur s e (rw (← e₁, ← e₂) n₁))
    parse_expression-Parses (suc fuel) (node NodeType.int v cs l c f) p cur s b (ec, ef)
          (e, t₁, s₁, n₁, (e₁, e₂)) =
        let kind : p.cur.type ≡ TokenType.int = rw e refl in
        rw (kind, ec, ef) (parse_atom-Parses NodeType.int p v l c cur s e (rw (← e₁, ← e₂) n₁))
    parse_expression-Parses (suc fuel) (node NodeType.float v cs l c f) p cur s b (ec, ef)
          (e, t₁, s₁, n₁, (e₁, e₂)) =
        let kind : p.cur.type ≡ TokenType.float = rw e refl in
        rw (kind, ec, ef) (parse_atom-Parses NodeType.float p v l c cur s e (rw (← e₁, ← e₂) n₁))
    parse_expression-Parses (suc fuel) (node NodeType.string v cs l c f) p cur s b (ec, ef)
          (e, t₁, s₁, n₁, (e₁, e₂)) =
        let kind : p.cur.type ≡ TokenType.string = rw e refl in
        rw (kind, ec, ef) (parse_atom-Parses NodeType.string p v l c cur s e (rw (← e₁, ← e₂) n₁))

    parse_children-Parses :
        (fuel : ℕ) (ns : Nodes) (p : Parser S) (cur : Token) (s : S)
        → size_all ns ≤ fuel
        → AllParsed p.filename ns
        → Ahead p.cur p.lexer (tokens_all ns) cur s
        → ends_list cur.type ≡ true
        → Parses (parse_children next_token fuel p) ns p cur s
    parse_children-Parses zero nil p cur s b h a end = absurd (omega (arith, b))
    parse_children-Parses zero (cons n ns) p cur s b h a end = absurd (omega (arith, b))
    parse_children-Parses (suc fuel) nil p cur s b h (e, e') end =
        let stops : ends_list p.cur.type ≡ true = rw e end in
        (p, simp stops refl, e, e', refl, refl)
    parse_children-Parses (suc fuel) (cons n ns) p cur s b (h, hs) a end =
        let (middle, m, front, back) =
          Ahead-append p.cur p.lexer (tokens n) (tokens_all ns) cur s a in
        let more : ends_list p.cur.type ≡ false =
          Ahead-not_end n p.filename p.cur p.lexer (tokens_all ns) cur s a in
        let (q, run, qc, ql, qd, qf) =
          parse_expression-Parses fuel n p middle m (omega (arith, b)) h front in
        let (r, run', rc, rl, rd, rf) =
          parse_children-Parses fuel ns q cur s (omega (arith, b)) (rw qf hs) (rw (qc, ql) back)
            end in
        (r, simp (more, run, run') refl, rc, rl, rd ∙ qd, rf ∙ qf)

  -- Where the tokens of a tree come next, the parser reads the tree, and then stands behind them, as
  -- deep as before. Fuel of the size of the tree is enough. The tree is as a parser of the file
  -- builds it: its lists have no value, its atoms no children, and its nodes the name of the file.
  -- The opening parentheses and the atoms have the places of the nodes, the closing ones any place.
  pub parse_expression-tokens :
      (n : Node) (p : Parser S) (cur : Token) (s : S)
      → IsParsed p.filename n
      → Ahead p.cur p.lexer (tokens n) cur s
      → Parses (parse_expression next_token (size n) p) n p cur s
  parse_expression-tokens n p cur s h a =
      parse_expression-Parses (size n) n p cur s (le_refl (size n)) h a
