-- ===== src/Lex/Total.antt =====
-- internal/lexer/lexer.go under internal/parser/parser.go: a text is read to its end.
use howlframe.Common.Result.{Result, err, ok, ◌>>=◌}
use howlframe.Lex.{new_lexer, token_starts, space, comment}
use howlframe.Parse.Ends.{Steps, parse_expression_ends}
use howlframe.Ast.{Node}
use howlframe.Parse.{Parser, new_parser, parse_expression, ParseError, out_of_fuel, Token, eof}
use howlframe.Common.{
  ap, ◌+◌, String, subst, ◌==◌, Bool-cases, le_refl, arith, ◌<◌, length, Bool, ◌≤◌, ◌≢◌, ℕ, inr,
  inl, refl, suc, false, true, ◌∷◌, [], none, some,
}
use howlframe.Lex.{
  token_from, blank_of, moved, Source, Unicode, Lexer, next_token, skip_blanks, token_here,
}
use howlframe.Lex.Progress.{moved-input, token_from-Leaves, report-not_fuel, Leaves}

-- A token leaves at most `n` code points, and fewer unless it is the last.
abbrev pub Advances : ℕ → Result ParseError (Token × Lexer) → Type 0
Advances n (err e) = e ≢ out_of_fuel
Advances n (ok (t, l)) = (length l.input ≤ n) × (t.type ≢ eof → length l.input < n)

Leaves-Advances : (n : ℕ) (r : Result ParseError (Token × Lexer)) → Leaves n r → Advances (suc n) r
Leaves-Advances n (err e) h = h
Leaves-Advances n (ok (t, l)) h = (omega (arith, h), λ _. omega (arith, h))

grow : {m : ℕ} (n : ℕ) (r : Result ParseError (Token × Lexer)) → m ≤ n → Advances m r → Advances n r
grow n (err e) b h = h
grow n (ok (t, l)) b (h, k) = (omega (arith, b, h), λ e. let left = k e in omega (arith, b, left))

token_here-Advances :
    (u : Unicode) (s : Source) (line column : ℕ)
    → Advances (length s) (token_here u (record { input = s; line = line; column = column }))
unfolding token_here
token_here-Advances u [] line column = (omega arith, λ h. absurd (h refl))
token_here-Advances u (none ∷ rest) line column = report-not_fuel _ line column
token_here-Advances u (some ch ∷ rest) line column = elim (Bool-cases (ch == 0)) [
  | inl z ↦ rw z (le_refl (suc (length rest)), λ h. absurd (h refl))
  | inr z ↦
      let read = token_from-Leaves u line column ch (moved ch rest line column) in
      let left : Leaves (length rest) (token_from u line column ch (moved ch rest line column)) =
        subst (λ s. Leaves (length s) (token_from u line column ch (moved ch rest line column)))
          (moved-input ch rest line column) read in
      rw z (
        Leaves-Advances (length rest) (token_from u line column ch (moved ch rest line column))
          left)
]

skip_blanks-Advances :
    (u : Unicode) (commented : Bool) (s : Source) (line column n : ℕ)
    → length s ≤ n
    → Advances n (skip_blanks u commented s line column >>= token_here u)
unfolding skip_blanks
skip_blanks-Advances u commented [] line column n b =
    grow n (token_here u _) b (token_here-Advances u [] line column)
skip_blanks-Advances u commented (none ∷ rest) line column n b = report-not_fuel _ line column
skip_blanks-Advances u commented (some ch ∷ rest) line column n b =
    let place = moved ch rest line column in
    elim (blank_of u commented ch)
      as (λ k. Advances n (
        elim k as (λ _. Result ParseError Lexer) [
          | token_starts ↦ ok (record { input = some ch ∷ rest; line = line; column = column })
          | space ↦ skip_blanks u false rest place.line place.column
          | comment ↦ skip_blanks u true rest place.line place.column
        ]
        >>= token_here u)) [
          | token_starts ↦
              grow n (token_here u _) b (token_here-Advances u (some ch ∷ rest) line column)
          | space ↦ skip_blanks-Advances u false rest place.line place.column n (omega (arith, b))
          | comment ↦ skip_blanks-Advances u true rest place.line place.column n (omega (arith, b))
        ]

-- `NextToken` gives a token that leaves less of the source than there was, unless it is the last one,
-- or reports an error.
pub next_token-Advances : (u : Unicode) (l : Lexer) → Advances (length l.input) (next_token u l)
unfolding next_token
next_token-Advances u l =
    skip_blanks-Advances u false l.input l.line l.column (length l.input) (le_refl (length l.input))

steps :
    (u : Unicode) (l : Lexer) (r : Result ParseError (Token × Lexer))
    → Advances (length l.input) r
    → Steps (next_token u) (λ m. length m.input) l r
steps u l (err e) h = h
steps u l (ok (t, m)) h = h

-- The first expression of a text.
unfoldable pub parse_text : Unicode → ℕ → Source → String → Result ParseError (Node × Parser Lexer)
unfolding new_parser
parse_text u fuel source filename = do
  p ← new_parser (next_token u) (new_lexer source) filename
  parse_expression (next_token u) fuel p

-- `NewParser` and `ParseExpression` on a text give a tree or an error of the program, whatever the
-- text is: fuel of twice its number of code points, and four more, is enough.
pub parse_text_ends :
    (u : Unicode) (source : Source) (filename : String)
    → parse_text u (length source + length source + 4) source filename ≢ err out_of_fuel
unfolding parse_text new_parser new_lexer
parse_text_ends u source filename =
    from_first (next_token u (new_lexer source)) (next_token-Advances u (new_lexer source))
  where
    from_first :
        (r : Result ParseError (Token × Lexer))
        → Advances (length source) r
        → ((r >>= λ (cur, rest). ok (record {
          lexer = rest;
          cur = cur;
          filename = filename;
          depth = 0;
          root_head = "";
          root_line = 0;
          root_column = 0;
          root_close_line = 0;
          root_close_column = 0;
        }))
            >>= parse_expression (next_token u) (length source + length source + 4))
          ≢ err out_of_fuel
    from_first (err e) h k =
        h (ap (λ r. elim r as (λ _. ParseError) [ err e ↦ e | ok a ↦ out_of_fuel ]) k)
    from_first (ok (cur, rest)) h k =
        parse_expression_ends (next_token u) (λ l. length l.input)
          (λ l. steps u l (next_token u l) (next_token-Advances u l)) (length source) _ (h.0) k
