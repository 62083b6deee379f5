-- ===== src/Lex/Tests.antt =====
-- The lexer on small sources, with the classes of ASCII.
use howlframe.Common.Result.{err, ok}
use howlframe.Parse.{
  Token, ends_list, head_word, closed_root, close_list, advance, parse_atom, parse_children,
  parse_expression, new_parser, out_of_fuel, eof,
}
use howlframe.Parse.{Parser, TokenType, l_paren, r_paren, symbol, int}
use howlframe.Parse.RoundTrip.{Ahead, tokens, size, Parses, IsParsed, parse_expression-tokens}
use howlframe.Ast.{Node, NodeType, node, nil, cons}
use howlframe.Lex.Total.{Advances, parse_text, parse_text_ends, next_token-Advances}
use howlframe.Common.{
  ℕ, List, ◌≡◌, if◌then◌else◌, String, ◌&&◌, ◌||◌, leb, map, ◌==◌, Bool, ◌≢◌, refl, ◌∷◌, [], some,
}
use howlframe.Lex.{
  Lexer, is_sign, in_symbol, starts_symbol, read_while, number_token, read_sign, token_from, moved,
  next_char, peek_char, blank_of, skip_blanks, token_here, new_lexer, next_token, Source, Unicode,
  Rune,
}

between : Rune → Rune → Rune → Bool
between low high ch = leb low ch && leb ch high

abbrev ascii : Unicode
ascii = record {
  is_space = λ ch. ch == 32 || ch == 10;
  is_letter = between 97 122;
  is_digit = between 48 57;
  unquote = λ raw. ok "";
  text = λ chs. elim chs as (λ _. String) [
    | [] ↦ ""
    | ch ∷ rest ↦ if ch == 45 then "minus" else "word"
  ];
}

-- (a -1) ;
abbrev small : Source
small = map some (40 ∷ 97 ∷ 32 ∷ 45 ∷ 49 ∷ 41 ∷ 32 ∷ 59 ∷ 33 ∷ [])

small_tree :
    parse_text ascii 12 small "m.howl"
    ≡ ok (
      node NodeType.list ""
          (cons
            (node NodeType.symbol "word" nil 1 2 "m.howl")
            (cons (node NodeType.int "minus" nil 1 4 "m.howl") nil))
          1
          1
          "m.howl",
      record {
        lexer = record { input = []; line = 1; column = 10 };
        cur = record { type = eof; value = ""; line = 1; column = 10 };
        filename = "m.howl";
        depth = 0;
        root_head = "word";
        root_line = 1;
        root_column = 1;
        root_close_line = 1;
        root_close_column = 6;
      },
    )
unfolding parse_text between next_token token_here new_lexer new_parser skip_blanks blank_of
    peek_char next_char moved token_from read_sign number_token read_while starts_symbol in_symbol
    is_sign parse_expression parse_children parse_atom advance close_list closed_root head_word
    ends_list
small_tree = refl

-- The first source without its parenthesis.
abbrev unclosed_source : Source
unclosed_source = map some (40 ∷ 97 ∷ [])

next_token-Advances_example : Advances 9 (next_token ascii (new_lexer small))
unfolding new_lexer
next_token-Advances_example = next_token-Advances ascii (new_lexer small)

parse_text_ends_example : parse_text ascii 8 unclosed_source "m.howl" ≢ err out_of_fuel
parse_text_ends_example = parse_text_ends ascii unclosed_source "m.howl"

-- The tree of the first source, and the lexer at its tokens.
abbrev small_node : Node
small_node =
    node NodeType.list ""
      (cons (node NodeType.symbol "word" nil 1 2 "m.howl")
        (cons (node NodeType.int "minus" nil 1 4 "m.howl") nil))
      1 1 "m.howl"

abbrev behind : List Rune → ℕ → Lexer
behind rest column = record { input = map some rest; line = 1; column = column }

abbrev small_token : TokenType → String → ℕ → Token
small_token type value column = record { type = type; value = value; line = 1; column = column }

abbrev small_parser : Parser Lexer
small_parser = record {
  lexer = behind (97 ∷ 32 ∷ 45 ∷ 49 ∷ 41 ∷ 32 ∷ 59 ∷ 33 ∷ []) 2;
  cur = small_token l_paren "(" 1;
  filename = "m.howl";
  depth = 0;
  root_head = "";
  root_line = 0;
  root_column = 0;
  root_close_line = 0;
  root_close_column = 0;
}

-- The lexer of the program gives the tokens of the tree.
small-Ahead :
    Ahead
      (next_token ascii)
      small_parser.cur
      small_parser.lexer
      (tokens small_node)
      (small_token eof "" 10)
      (behind [] 10)
unfolding tokens between next_token token_here skip_blanks blank_of peek_char next_char moved
    token_from read_sign number_token read_while starts_symbol in_symbol is_sign
small-Ahead = (
  refl,
  small_token symbol "word" 2,
  behind (32 ∷ 45 ∷ 49 ∷ 41 ∷ 32 ∷ 59 ∷ 33 ∷ []) 3,
  refl,
  (
    refl,
    small_token int "minus" 4,
    behind (41 ∷ 32 ∷ 59 ∷ 33 ∷ []) 6,
    refl,
    (
      refl,
      small_token r_paren ")" 6,
      behind (32 ∷ 59 ∷ 33 ∷ []) 7,
      refl,
      (refl, small_token eof "" 10, behind [] 10, refl, (refl, refl)),
    ),
  ),
)

parse_expression-tokens_example :
    Parses
      (next_token ascii)
      (parse_expression (next_token ascii) (size small_node) small_parser)
      small_node
      small_parser
      (small_token eof "" 10)
      (behind [] 10)
unfolding IsParsed
parse_expression-tokens_example =
    parse_expression-tokens (next_token ascii) small_node small_parser (small_token eof "" 10)
      (behind [] 10) (refl, refl, ((refl, refl), ((refl, refl), tt))) small-Ahead
