-- ===== src/Lex.antt =====
-- internal/lexer/lexer.go: `NextToken`. The source is the list of its code points, as
-- `utf8.DecodeRuneInString` reads them, `none` being a byte that is not valid UTF-8. The classes of
-- the package unicode, `strconv.Unquote` and the text of code points are parameters. At the end of
-- the source `peekChar` gives 0, which is in no class.
pub mod Progress
pub mod Total
mod Tests
use howlframe.Common.Result.{Result, err, ok, ◌>>=◌}
use howlframe.Parse.{
  Token, TokenType, ParseError, lexer_report, l_paren, r_paren, symbol, int, float, string, eof,
}
use Prim.Native.String.{◌++◌ as str_append}
use howlframe.Common.{
  not, ◌++◌, ◌&&◌, ◌||◌, ◌==◌, if◌then◌else◌, Option, String, List, Bool, ℕ, suc, false, true, ◌∷◌,
  [], none, some,
}

-- A code point.
abbrev pub Rune : Type 0
Rune = ℕ

-- What the lexer uses of other packages.
pub record Unicode : Type 0 where
  pub is_space : Rune → Bool
  pub is_letter : Rune → Bool
  pub is_digit : Rune → Bool
  -- `strconv.Unquote`, with the text of its error.
  pub unquote : List Rune → Result String String
  -- The text of code points.
  pub text : List Rune → String

abbrev pub Source : Type 0
Source = List (Option Rune)

-- `Lexer`: what is left of the input, and the place of its first code point.
pub record Lexer : Type 0 where
  pub input : Source
  pub line : ℕ
  pub column : ℕ

-- `NewLexer`
unfoldable pub new_lexer : Source → Lexer
new_lexer source = record { input = source; line = 1; column = 1 }

-- The place behind a code point.
unfoldable pub moved : Rune → Source → ℕ → ℕ → Lexer
moved ch rest line column =
    if ch == 10
    then record { input = rest; line = suc line; column = 1 }
    else record { input = rest; line = line; column = suc column }

-- `ast.ReportError` of `decodeSourceRune`
abbrev pub not_utf8 : ℕ → ℕ → ParseError
not_utf8 line column = lexer_report "source is not valid UTF-8" line column

-- `peekChar`
unfoldable pub peek_char : Lexer → Result ParseError Rune
peek_char l = elim l.input [
  | [] ↦ ok 0
  | c ∷ rest ↦ elim c [ none ↦ err (not_utf8 l.line l.column) | some ch ↦ ok ch ]
]

-- `nextChar`
unfoldable pub next_char : Lexer → Result ParseError (Rune × Lexer)
unfolding moved
next_char l = elim l.input [
  | [] ↦ ok (0, l)
  | c ∷ rest ↦ elim c [
    | none ↦ err (not_utf8 l.line l.column)
    | some ch ↦ ok (ch, moved ch rest l.line l.column)
  ]
]

-- What the first loop of `NextToken` does with a code point.
pub data Blank : Type 0 where
  token_starts space comment : Blank

-- `commented` is true within a comment.
unfoldable pub blank_of : Unicode → Bool → Rune → Blank
blank_of u commented ch =
    if commented && not (ch == 0) && not (ch == 10)
    then comment
    else if ch == 0
    then token_starts
    else if u.is_space ch
    then space
    else if ch == 59
    then comment
    else token_starts

-- The first loop of `NextToken`, which skips spaces and comments.
unfoldable pub skip_blanks : Unicode → Bool → Source → ℕ → ℕ → Result ParseError Lexer
unfolding moved blank_of
skip_blanks u commented [] line column = ok (record { input = []; line = line; column = column })
skip_blanks u commented (none ∷ rest) line column = err (not_utf8 line column)
skip_blanks u commented (some ch ∷ rest) line column =
    let place = moved ch rest line column in
    elim (blank_of u commented ch) [
      | token_starts ↦ ok (record { input = some ch ∷ rest; line = line; column = column })
      | space ↦ skip_blanks u false rest place.line place.column
      | comment ↦ skip_blanks u true rest place.line place.column
    ]

-- The loops that read while `peekChar` is in a class.
unfoldable pub read_while : (Rune → Bool) → Source → ℕ → ℕ → Result ParseError (List Rune × Lexer)
unfolding moved
read_while inside [] line column = ok ([], record { input = []; line = line; column = column })
read_while inside (none ∷ rest) line column = err (not_utf8 line column)
read_while inside (some ch ∷ rest) line column =
    let place = moved ch rest line column in
    elim (inside ch) [
      | true ↦ (do (chs, l) ← read_while inside rest place.line place.column; ok (ch ∷ chs, l))
      | false ↦ ok ([], record { input = some ch ∷ rest; line = line; column = column })
    ]

-- `raw` after a backslash and a code point.
unfoldable pub escape : Rune → List Rune
escape ch = if ch == 39 then 39 ∷ [] else 92 ∷ ch ∷ []

-- The loop of `NextToken` over a string that began at a line and a column. `escaped` is true behind
-- a backslash.
module _ (start_line start_column : ℕ) where
  unfoldable pub read_string : Bool → Source → ℕ → ℕ → Result ParseError (List Rune × Lexer)
  unfolding moved escape
  read_string true [] line column =
      err (lexer_report "Unterminated string escape" start_line start_column)
  read_string false [] line column =
      err (lexer_report "Unterminated string" start_line start_column)
  read_string escaped (none ∷ rest) line column = err (not_utf8 line column)
  read_string true (some ch ∷ rest) line column =
      let place = moved ch rest line column in
      elim (ch == 0) [
        | true ↦ err (lexer_report "Unterminated string escape" start_line start_column)
        | false ↦ (do
          (raw, l) ← read_string false rest place.line place.column
          ok (escape ch ++ raw, l))
      ]
  read_string false (some ch ∷ rest) line column =
      let place = moved ch rest line column in
      elim (ch == 0) [
        | true ↦ err (lexer_report "Unterminated string" start_line start_column)
        | false ↦ elim (ch == 92) [
          | true ↦ read_string true rest place.line place.column
          | false ↦ elim (ch == 34) [
            | true ↦ ok (34 ∷ [], place)
            | false ↦ (do
              (raw, l) ← read_string false rest place.line place.column
              ok (ch ∷ raw, l))
          ]
        ]
      ]

  abbrev pub token_at : TokenType → String → Token
  token_at type value = record {
    type = type;
    value = value;
    line = start_line;
    column = start_column;
  }

  unfoldable pub string_token : Unicode → Lexer → Result ParseError (Token × Lexer)
  unfolding read_string
  string_token u l = do
    (raw, after) ← read_string false l.input l.line l.column
    elim (u.unquote (34 ∷ raw)) [
      | err e ↦ err (lexer_report (str_append "Invalid string literal: " e) start_line start_column)
      | ok value ↦ ok (token_at string value, after)
    ]

  -- A number whose sign and first digit are read.
  unfoldable pub number_token : Unicode → List Rune → Lexer → Result ParseError (Token × Lexer)
  unfolding read_while peek_char next_char
  number_token u first l = do
    (digits, after) ← read_while u.is_digit l.input l.line l.column
    c ← peek_char after
    if not (c == 46) then ok (token_at int (u.text (first ++ digits)), after) else (do
      (dot, behind) ← next_char after
      d ← peek_char behind
      if not (u.is_digit d) then ok (token_at int (u.text (first ++ digits)), after) else (do
        (fraction, last) ← read_while u.is_digit behind.input behind.line behind.column
        ok (token_at float (u.text (first ++ digits ++ 46 ∷ fraction)), last)))

-- The signs that a symbol may hold.
unfoldable pub is_sign : Rune → Bool
is_sign ch =
    ch == 95
    || ch == 47
    || ch == 45
    || ch == 61
    || ch == 46
    || ch == 43
    || ch == 42
    || ch == 60
    || ch == 62
    || ch == 33

unfoldable pub starts_symbol : Unicode → Rune → Bool
starts_symbol u ch = u.is_letter ch || ch == 37 || is_sign ch

unfoldable pub in_symbol : Unicode → Rune → Bool
in_symbol u ch = u.is_letter ch || u.is_digit ch || is_sign ch

-- The sign of a number and its first digit: a minus in front of a digit.
unfoldable pub read_sign : Unicode → Rune → Lexer → Result ParseError ((List Rune × Rune) × Lexer)
unfolding peek_char next_char
read_sign u ch l = if not (ch == 45) then ok (([], ch), l) else (do
  c ← peek_char l
  if not (u.is_digit c)
      then ok (([], ch), l)
      else (do (digit, after) ← next_char l; ok ((45 ∷ [], digit), after)))

-- A token that begins with the code point `ch`, at a line and a column; `l` is behind it.
unfoldable pub token_from : Unicode → ℕ → ℕ → Rune → Lexer → Result ParseError (Token × Lexer)
unfolding string_token number_token read_sign starts_symbol in_symbol read_while
token_from u line column first l =
    if first == 40
    then ok (token_at line column l_paren "(", l)
    else if first == 41
    then ok (token_at line column r_paren ")", l)
    else if first == 34
    then string_token line column u l
    else (do
      ((sign, ch), after) ← read_sign u first l
      if u.is_digit ch
          then number_token line column u (sign ++ ch ∷ []) after
          else if starts_symbol u ch
          then (do
            (chs, last) ← read_while (in_symbol u) after.input after.line after.column
            ok (token_at line column symbol (u.text (ch ∷ chs)), last))
          else err
              (lexer_report (str_append "Unexpected character: " (u.text (ch ∷ []))) line column))

-- `NextToken` behind the blanks.
unfoldable pub token_here : Unicode → Lexer → Result ParseError (Token × Lexer)
unfolding peek_char next_char token_from
token_here u start = do
  c ← peek_char start
  if c == 0
      then ok (token_at start.line start.column eof "", start)
      else (do (ch, after) ← next_char start; token_from u start.line start.column ch after)

-- `NextToken`
unfoldable pub next_token : Unicode → Lexer → Result ParseError (Token × Lexer)
unfolding skip_blanks token_here
next_token u l = do start ← skip_blanks u false l.input l.line l.column; token_here u start
