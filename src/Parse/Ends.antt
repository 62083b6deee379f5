-- ===== src/Parse/Ends.antt =====
-- internal/parser/parser.go: the parser ends over every lexer that ends.
use howlframe.Common.Result.{Result, err, ok, ◌>>=◌}
use howlframe.Parse.{
  unexpected, parse_children, parse_expression, Parser, Token, TokenType, ParseError, l_paren,
  r_paren, symbol, int, float, string, eof, unclosed, out_of_fuel, advance, parse_atom, close_list,
  closed_root, head_word, ends_list, is_r_paren,
}
use howlframe.Ast.{Node, NodeType, Nodes, node}
use howlframe.Common.{
  subst, ◌+◌, zero, ap, ◌-◌, ◌==◌, if◌then◌else◌, arith, Bool-cases, ◌<◌, ◌≡◌, ◌≤◌, ◌≢◌, ℕ, inr,
  inl, refl, suc, false,
}

module _ {S : Type 0} (next_token : S → Result ParseError (Token × S)) (size : S → ℕ) where
  -- A token leaves less than there was, unless it is the last.
  abbrev pub Steps : S → Result ParseError (Token × S) → Type 0
  Steps s (err e) = e ≢ out_of_fuel
  Steps s (ok (t, s')) = (size s' ≤ size s) × (t.type ≢ eof → size s' < size s)

  -- What there is to read from a current token of a type on.
  abbrev pub weight_of : TokenType → S → ℕ
  weight_of eof s = 0
  weight_of _ s = suc (size s)

  abbrev pub weight : Parser S → ℕ
  weight p = weight_of p.cur.type p.lexer

  -- The result leaves a parser with no more than `n` to read, and no error is one of the model.
  abbrev pub Reads : {A : Type 0} → ℕ → Result ParseError (A × Parser S) → Type 0
  Reads n (err e) = e ≢ out_of_fuel
  Reads n (ok (a, q)) = weight q ≤ n

  >>=-Reads :
      {A B : Type 0} (m n : ℕ) (r : Result ParseError (A × Parser S))
      (f : A × Parser S → Result ParseError (B × Parser S))
      → Reads m r
      → ((a : A) (q : Parser S) → weight q ≤ m → Reads n (f (a, q)))
      → Reads n (r >>= f)
  >>=-Reads m n (err e) f h k = h
  >>=-Reads m n (ok (a, q)) f h k = k a q h

  weight_of-le : (t : TokenType) (l s : S) → (t ≢ eof → size l < size s) → weight_of t l ≤ size s
  weight_of-le eof l s h = omega arith
  weight_of-le l_paren l s h = h (λ e. cc)
  weight_of-le r_paren l s h = h (λ e. cc)
  weight_of-le symbol l s h = h (λ e. cc)
  weight_of-le int l s h = h (λ e. cc)
  weight_of-le float l s h = h (λ e. cc)
  weight_of-le string l s h = h (λ e. cc)

  weight_of-size : (t : TokenType) (s : S) → weight_of t s ≤ suc (size s)
  weight_of-size eof s = omega arith
  weight_of-size l_paren s = omega arith
  weight_of-size r_paren s = omega arith
  weight_of-size symbol s = omega arith
  weight_of-size int s = omega arith
  weight_of-size float s = omega arith
  weight_of-size string s = omega arith

  weight_of-more : (t : TokenType) (s : S) → ends_list t ≡ false → weight_of t s ≡ suc (size s)
  unfolding ends_list
  weight_of-more l_paren s h = refl
  weight_of-more symbol s h = refl
  weight_of-more int s h = refl
  weight_of-more float s h = refl
  weight_of-more string s h = refl
  weight_of-more r_paren s h = refl
  weight_of-more eof s h = cc

  weight-closed_root :
      (opening : Token) (children : Nodes) (p : Parser S)
      → ((closed_root opening children p).lexer ≡ p.lexer)
  unfolding closed_root
  weight-closed_root opening children p = elim (Bool-cases (p.depth == 0)) [
    | inl z ↦ rw z refl
    | inr z ↦ rw z refl
  ]

  module _ (steps : (s : S) → Steps s (next_token s)) where
    advance-Reads :
        {A : Type 0} (n : ℕ) (p : Parser S) (f : Parser S → Result ParseError (A × Parser S))
        → ((q : Parser S) → weight q ≤ size p.lexer → Reads n (f q))
        → Reads n (advance next_token p >>= f)
    unfolding advance
    advance-Reads {A} n p f k = stepped (next_token p.lexer) (steps p.lexer)
      where
        stepped :
            (r : Result ParseError (Token × S))
            → Steps p.lexer r
            → Reads n ((r >>= λ (token, lexer). ok (record p { cur = token; lexer = lexer })) >>= f)
        stepped (err e) h = h
        stepped (ok (t, l)) (b, less) =
            k (record p { cur = t; lexer = l }) (weight_of-le t.type l p.lexer less)

    parse_atom-Reads :
        (t : NodeType) (n : ℕ) (p : Parser S)
        → size p.lexer ≤ n
        → Reads n (parse_atom next_token t p)
    unfolding parse_atom
    parse_atom-Reads t n p b = advance-Reads n p _ λ q h. omega (arith, b, h)

    close_list-Reads :
        (n : ℕ) (opening : Token) (children : Nodes) (p : Parser S)
        → weight p ≤ n
        → Reads n (close_list next_token opening children p)
    unfolding close_list
    close_list-Reads n opening children p b = by_type p.cur.type refl
      where
        by_type :
            (t : TokenType)
            → p.cur.type ≡ t
            → Reads n (
                if is_r_paren t
                then (do
                  q ←
                      advance next_token
                        (closed_root opening children (record p { depth = p.depth - 1 }))
                  ok (node NodeType.list "" children opening.line opening.column p.filename, q))
                else err (unclosed (head_word children) p.cur.line opening.line opening.column))
        by_type r_paren k =
            let place : (closed_root opening children (record p { depth = p.depth - 1 })).lexer
                ≡ p.lexer =
              weight-closed_root opening children (record p { depth = p.depth - 1 }) in
            let here : weight p ≡ suc (size p.lexer) = ap (λ t. weight_of t p.lexer) k in
            let same = ap size place in
            advance-Reads n (closed_root opening children (record p { depth = p.depth - 1 })) _
              λ q h. omega (arith, b, h, here, same)
        by_type l_paren k = λ e. cc
        by_type symbol k = λ e. cc
        by_type int k = λ e. cc
        by_type float k = λ e. cc
        by_type string k = λ e. cc
        by_type eof k = λ e. cc

    mutual
      unfolding parse_expression parse_children

      parse_expression-Reads :
          (fuel n : ℕ) (p : Parser S)
          → weight p ≤ suc n
          → n + n + 2 ≤ fuel
          → Reads n (parse_expression next_token fuel p)
      parse_expression-Reads zero n p b e = absurd (omega (arith, e))
      parse_expression-Reads (suc fuel) n p b e =
          elim p.cur.type
              as (λ t.
                p.cur.type ≡ t
                → Reads n (elim t as (λ _. Result ParseError (Node × Parser S)) [
                  | l_paren ↦ (do
                    opened ← advance next_token p
                    (children, q) ←
                        parse_children next_token fuel (record opened { depth = suc p.depth })
                    close_list next_token p.cur children q)
                  | r_paren ↦ unexpected next_token p.cur
                  | symbol ↦ parse_atom next_token NodeType.symbol p
                  | int ↦ parse_atom next_token NodeType.int p
                  | float ↦ parse_atom next_token NodeType.float p
                  | string ↦ parse_atom next_token NodeType.string p
                  | eof ↦ unexpected next_token p.cur
                ])) [
                  | l_paren ↦ λ k.
                      let here = ap (λ t. weight_of t p.lexer) k in
                      advance-Reads n p _ λ q h.
                        >>=-Reads n n
                          (parse_children next_token fuel (record q { depth = suc p.depth })) _
                          (parse_children-Reads fuel n (record q { depth = suc p.depth })
                            (omega (arith, b, here, h)) (omega (arith, e)))
                          λ children r c. close_list-Reads n p.cur children r c
                  | r_paren ↦ λ k f. cc
                  | symbol ↦ λ k. atom NodeType.symbol (ap (λ t. weight_of t p.lexer) k)
                  | int ↦ λ k. atom NodeType.int (ap (λ t. weight_of t p.lexer) k)
                  | float ↦ λ k. atom NodeType.float (ap (λ t. weight_of t p.lexer) k)
                  | string ↦ λ k. atom NodeType.string (ap (λ t. weight_of t p.lexer) k)
                  | eof ↦ λ k f. cc
                ]
            refl
        where
          atom :
              (t : NodeType) → weight p ≡ suc (size p.lexer) → Reads n (parse_atom next_token t p)
          atom t here = parse_atom-Reads t n p (omega (arith, b, here))

      parse_children-Reads :
          (fuel n : ℕ) (p : Parser S)
          → weight p ≤ n
          → n + n + 1 ≤ fuel
          → Reads n (parse_children next_token fuel p)
      parse_children-Reads zero n p b e = absurd (omega (arith, e))
      parse_children-Reads (suc fuel) n p b e = elim (Bool-cases (ends_list p.cur.type)) [
        | inl stops ↦ rw stops b
        | inr more ↦
            let here = weight_of-more p.cur.type p.lexer more in
            let (m, same) : (m : ℕ) × (n ≡ suc m) = (n - 1, omega (arith, b, here)) in
            rw more (
              >>=-Reads m n (parse_expression next_token fuel p) _
                (parse_expression-Reads fuel m p (omega (arith, b, same)) (omega (arith, e, same)))
                λ first q c.
                  >>=-Reads m n (parse_children next_token fuel q) _
                    (parse_children-Reads fuel m q c (omega (arith, e, same)))
                    λ others r d. omega (arith, d, same))
      ]

    -- Over a lexer whose every token but the last leaves less to read, `ParseExpression` gives a tree
    -- or an error of the program: fuel of twice what there is to read, and four more, is enough.
    pub parse_expression_ends :
        (n : ℕ) (p : Parser S)
        → size p.lexer ≤ n
        → parse_expression next_token (n + n + 4) p ≢ err out_of_fuel
    parse_expression_ends n p b h =
        let enough = weight_of-size p.cur.type p.lexer in
        (subst (Reads n) h
            (parse_expression-Reads (n + n + 4) n p (omega (arith, b, enough)) (omega arith)))
          refl
