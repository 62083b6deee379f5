-- ===== src/Lex/Progress.antt =====
-- internal/lexer/lexer.go: every token but the last uses up source.
use howlframe.Common.Result.{Result, err, ok, ◌>>=◌}
use howlframe.Parse.{ParseError, lexer_report, out_of_fuel, Token, string, symbol}
use Prim.Native.String.{◌++◌ as str_append}
use howlframe.Common.{
  ◌++◌, if◌then◌else◌, le_refl, not, List, ◌==◌, Bool-cases, ◌≡◌, arith, ◌≤◌, length, Bool, ◌≢◌,
  String, ℕ, inr, inl, refl, suc, false, true, ◌∷◌, [], none, some,
}
use howlframe.Lex.{
  in_symbol, starts_symbol, token_at, Unicode, not_utf8, token_from, read_sign, number_token,
  string_token, next_char, peek_char, Source, Rune, Lexer, read_string, read_while, moved,
}

-- The result, if there is one, leaves at most `n` code points, and no error is one of the model.
abbrev pub Leaves : {A : Type 0} → ℕ → Result ParseError (A × Lexer) → Type 0
Leaves n (err e) = e ≢ out_of_fuel
Leaves n (ok (a, l)) = length l.input ≤ n

Leaves-weaken :
    {A : Type 0} (m n : ℕ) (r : Result ParseError (A × Lexer)) → m ≤ n → Leaves m r → Leaves n r
Leaves-weaken m n (err e) b h = h
Leaves-weaken m n (ok (a, l)) b h = omega (arith, b, h)

>>=-Leaves :
    {A B : Type 0} (m n : ℕ) (r : Result ParseError (A × Lexer))
    (f : A × Lexer → Result ParseError (B × Lexer))
    → Leaves m r
    → ((a : A) (l : Lexer) → length l.input ≤ m → Leaves n (f (a, l)))
    → Leaves n (r >>= f)
>>=-Leaves m n (err e) f h k = h
>>=-Leaves m n (ok (a, l)) f h k = k a l h

cases-Leaves :
    {A : Type 0} (n : ℕ) (b : Bool) (r q : Result ParseError (A × Lexer))
    → Leaves n r
    → Leaves n q
    → Leaves n (elim b [ true ↦ r | false ↦ q ])
cases-Leaves n true r q h k = h
cases-Leaves n false r q h k = k

if-Leaves :
    {A : Type 0} (n : ℕ) (b : Bool) (r q : Result ParseError (A × Lexer))
    → Leaves n r
    → Leaves n q
    → Leaves n (if b then r else q)
if-Leaves n true r q h k = h
if-Leaves n false r q h k = k

pub moved-input :
    (ch : Rune) (rest : Source) (line column : ℕ) → (moved ch rest line column).input ≡ rest
unfolding moved
moved-input ch rest line column = elim (Bool-cases (ch == 10)) [
  | inl e ↦ rw e refl
  | inr e ↦ rw e refl
]

pub report-not_fuel : (s : String) (line column : ℕ) → lexer_report s line column ≢ out_of_fuel
report-not_fuel s line column h = cc

read_while-Leaves :
    (inside : Rune → Bool) (source : Source) (line column : ℕ)
    → Leaves (length source) (read_while inside source line column)
unfolding read_while
read_while-Leaves inside [] line column = omega arith
read_while-Leaves inside (none ∷ rest) line column = report-not_fuel _ line column
read_while-Leaves inside (some ch ∷ rest) line column =
    let place = moved ch rest line column in
    cases-Leaves (suc (length rest)) (inside ch) _ _
      (>>=-Leaves (length rest) (suc (length rest)) (read_while inside rest place.line place.column)
        _ (read_while-Leaves inside rest place.line place.column) λ chs l b. omega (arith, b))
      (omega arith)

read_string-Leaves :
    (start_line start_column : ℕ) (escaped : Bool) (source : Source) (line column : ℕ)
    → Leaves (length source) (read_string start_line start_column escaped source line column)
unfolding read_string
read_string-Leaves sl sc true [] line column = report-not_fuel _ sl sc
read_string-Leaves sl sc false [] line column = report-not_fuel _ sl sc
read_string-Leaves sl sc true (none ∷ rest) line column = report-not_fuel _ line column
read_string-Leaves sl sc false (none ∷ rest) line column = report-not_fuel _ line column
read_string-Leaves sl sc true (some ch ∷ rest) line column =
    let place = moved ch rest line column in
    cases-Leaves (suc (length rest)) (ch == 0) _ _ (report-not_fuel _ sl sc) (
      >>=-Leaves (length rest) (suc (length rest))
        (read_string sl sc false rest place.line place.column) _
        (read_string-Leaves sl sc false rest place.line place.column) λ chs l b. omega (arith, b))
read_string-Leaves sl sc false (some ch ∷ rest) line column =
    let place = moved ch rest line column in
    cases-Leaves (suc (length rest)) (ch == 0) _ _ (report-not_fuel _ sl sc) (
      cases-Leaves (suc (length rest)) (ch == 92) _ _
        (Leaves-weaken (length rest) (suc (length rest))
          (read_string sl sc true rest place.line place.column) (omega arith)
          (read_string-Leaves sl sc true rest place.line place.column))
        (cases-Leaves (suc (length rest)) (ch == 34) _ _
          (rw (moved-input ch rest line column) (omega arith))
          (>>=-Leaves (length rest) (suc (length rest))
            (read_string sl sc false rest place.line place.column) _
            (read_string-Leaves sl sc false rest place.line place.column)
            λ chs l b. omega (arith, b))))

peek_char-Leaves :
    {A : Type 0} (n : ℕ) (l : Lexer) (f : Rune → Result ParseError (A × Lexer))
    → ((c : Rune) → Leaves n (f c))
    → Leaves n (peek_char l >>= f)
unfolding peek_char
peek_char-Leaves n l f k =
    elim l.input
      as (λ s. Leaves n (
        elim s [
          | [] ↦ ok 0
          | c ∷ rest ↦ elim c [ none ↦ err (not_utf8 l.line l.column) | some ch ↦ ok ch ]
        ]
        >>= f)) [
          | [] ↦ k 0
          | c ∷ rest ↦
              elim c
                as (λ o.
                  Leaves n
                    (elim o [ none ↦ err (not_utf8 l.line l.column) | some ch ↦ ok ch ] >>= f)) [
                      | none ↦ report-not_fuel _ l.line l.column
                      | some ch ↦ k ch
                    ]
        ]

next_char-Leaves : (l : Lexer) → Leaves (length l.input) (next_char l)
unfolding next_char
next_char-Leaves l = from_input l.input l.line l.column
  where
    from_input :
        (s : Source) (line column : ℕ)
        → Leaves (length s) (next_char (record { input = s; line = line; column = column }))
    from_input [] line column = omega arith
    from_input (none ∷ rest) line column = report-not_fuel _ line column
    from_input (some ch ∷ rest) line column = rw (moved-input ch rest line column) (omega arith)

string_token-Leaves :
    (line column : ℕ) (u : Unicode) (l : Lexer)
    → Leaves (length l.input) (string_token line column u l)
unfolding string_token
string_token-Leaves line column u l =
    >>=-Leaves (length l.input) (length l.input)
      (read_string line column false l.input l.line l.column) _
      (read_string-Leaves line column false l.input l.line l.column)
      λ raw after b. unquoted (u.unquote (34 ∷ raw)) after b
  where
    unquoted :
        (r : Result String String) (after : Lexer)
        → length after.input ≤ length l.input
        → Leaves (length l.input) (elim r as (λ _. Result ParseError (Token × Lexer)) [
          | err e ↦ err (lexer_report (str_append "Invalid string literal: " e) line column)
          | ok value ↦ ok (token_at line column string value, after)
        ])
    unquoted (err e) after b = report-not_fuel _ line column
    unquoted (ok value) after b = b

number_token-Leaves :
    (line column : ℕ) (u : Unicode) (first : List Rune) (l : Lexer)
    → Leaves (length l.input) (number_token line column u first l)
unfolding number_token
number_token-Leaves line column u first l =
    let n = length l.input in
    >>=-Leaves n n (read_while u.is_digit l.input l.line l.column) _
      (read_while-Leaves u.is_digit l.input l.line l.column)
      λ digits after b. peek_char-Leaves n after _ λ c. if-Leaves n (not (c == 46)) _ _ b (
        >>=-Leaves (length after.input) n (next_char after) _ (next_char-Leaves after)
          λ dot behind b'. peek_char-Leaves n behind _ λ d. if-Leaves n (not (u.is_digit d)) _ _ b (
            >>=-Leaves (length behind.input) n
              (read_while u.is_digit behind.input behind.line behind.column) _
              (read_while-Leaves u.is_digit behind.input behind.line behind.column)
              λ fraction last b''. omega (arith, b, b', b'')))

read_sign-Leaves :
    (u : Unicode) (ch : Rune) (l : Lexer) → Leaves (length l.input) (read_sign u ch l)
unfolding read_sign
read_sign-Leaves u ch l =
    let n = length l.input in
    if-Leaves n (not (ch == 45)) _ _ (le_refl n) (
      peek_char-Leaves n l _ λ c.
        if-Leaves n (not (u.is_digit c)) _ _ (le_refl n)
          (>>=-Leaves n n (next_char l) _ (next_char-Leaves l) λ digit after b. b))

pub token_from-Leaves :
    (u : Unicode) (line column : ℕ) (first : Rune) (l : Lexer)
    → Leaves (length l.input) (token_from u line column first l)
unfolding token_from
token_from-Leaves u line column first l =
    let n = length l.input in
    if-Leaves n (first == 40) _ _ (le_refl n) (
      if-Leaves n (first == 41) _ _ (le_refl n) (
        if-Leaves n (first == 34) _ _ (string_token-Leaves line column u l) (
          >>=-Leaves n n (read_sign u first l) _ (read_sign-Leaves u first l)
            λ start after b. symbol_or_number start.0 start.1 after b)))
  where
    symbol_or_number :
        (sign : List Rune) (ch : Rune) (after : Lexer)
        → length after.input ≤ length l.input
        → Leaves (length l.input) (
            if u.is_digit ch
            then number_token line column u (sign ++ ch ∷ []) after
            else if starts_symbol u ch
            then (do
              (chs, last) ← read_while (in_symbol u) after.input after.line after.column
              ok (token_at line column symbol (u.text (ch ∷ chs)), last))
            else err
                (lexer_report (str_append "Unexpected character: " (u.text (ch ∷ []))) line column))
    symbol_or_number sign ch after b =
        let n = length l.input in
        if-Leaves n (u.is_digit ch) _ _
          (Leaves-weaken (length after.input) n (number_token line column u (sign ++ ch ∷ []) after)
            b (number_token-Leaves line column u (sign ++ ch ∷ []) after))
          (if-Leaves n (starts_symbol u ch) _ _
            (>>=-Leaves (length after.input) n
              (read_while (in_symbol u) after.input after.line after.column) _
              (read_while-Leaves (in_symbol u) after.input after.line after.column)
              λ chs last b'. omega (arith, b, b'))
            (report-not_fuel _ line column))
