-- ===== src/Strconv/Quoted.antt =====
-- `strconv.Unquote` on a double-quoted text, as a machine that reads one character at a time.
use tuplespace.Base.{
  ℕ, zero, suc, ◌+◌, ◌-◌, ◌*◌, ◌≡◌, refl, ap, ◌∙◌, ◌++◌, append_assoc, arith, Bool, ◌&&◌, ◌||◌,
  Option, none, some, [], ◌∷◌, Text, codes, ltb, leb, ◌==◌, is_empty, if◌then◌else◌,
}

-- What a run of digits stands for: `\xHH`, `\ooo`, or `\uHHHH` and `\UHHHHHHHH`.
pub data Escape : Type 0 where
  hex_byte octal_byte rune : Escape

-- Between characters, behind a backslash, or with so many digits still to come and the value so far.
pub data Mode : Type 0 where
  plain escaped : Mode
  digits_left : Escape → ℕ → ℕ → Mode

pub data Step : Type 0 where
  emit : ℕ → Step
  go : Mode → Step
  close fail : Step

hex_value : ℕ → Option ℕ
hex_value c =
    if leb b'0' c && leb c b'9'
    then some (c - b'0')
    else if leb b'a' c && leb c b'f'
    then some (c - b'a' + 10)
    else if leb b'A' c && leb c b'F'
    then some (c - b'A' + 10)
    else none

octal_value : ℕ → Option ℕ
octal_value c = if leb b'0' c && leb c b'7' then some (c - b'0') else none

-- utf8.ValidRune
valid_rune : ℕ → Bool
valid_rune v = ltb v 55296 || (ltb 57343 v && leb v 1114111)

-- A byte of 128 or more is no code point by itself: it is kept apart from the code points.
abbrev raw_byte : ℕ → ℕ
raw_byte b = if ltb b 128 then b else 1114112 + b

finish : Escape → ℕ → Step
unfolding valid_rune
finish hex_byte v = emit (raw_byte v)
finish octal_byte v = if ltb 255 v then fail else emit (raw_byte v)
finish rune v = if valid_rune v then emit v else fail

digit_value : Escape → ℕ → Option ℕ
unfolding hex_value octal_value
digit_value octal_byte c = octal_value c
digit_value _ c = hex_value c

abbrev base : Escape → ℕ
base octal_byte = 8
base _ = 16

add_digit : Escape → ℕ → ℕ → Option ℕ → Step
unfolding finish
add_digit k n v none = fail
add_digit k zero v (some d) = finish k (v * base k + d)
add_digit k (suc n) v (some d) = go (digits_left k (suc n) (v * base k + d))

-- The character behind a backslash.
unescape : ℕ → Step
unfolding octal_value
unescape c =
    if c == b'a'
    then emit 7
    else if c == b'b'
    then emit 8
    else if c == b'f'
    then emit 12
    else if c == b'n'
    then emit 10
    else if c == b'r'
    then emit 13
    else if c == b't'
    then emit 9
    else if c == b'v'
    then emit 11
    else if c == b'\\'
    then emit b'\\'
    else if c == b'"'
    then emit b'"'
    else if c == b'x'
    then go (digits_left hex_byte 2 0)
    else if c == b'u'
    then go (digits_left rune 4 0)
    else if c == b'U'
    then go (digits_left rune 8 0)
    else (elim (octal_value c) [ none ↦ fail | some d ↦ go (digits_left octal_byte 2 d) ])

step : Mode → ℕ → Step
unfolding unescape add_digit digit_value
step plain c =
    if c == b'"' then close else if c == 10 then fail else if c == b'\\' then go escaped else emit c
step escaped c = unescape c
step (digits_left k zero v) c = fail
step (digits_left k (suc n) v) c = add_digit k n v (digit_value k c)

abbrev push : ℕ → Option Text → Option Text
push c none = none
push c (some s) = some (c ∷ s)

-- The text behind the opening quote. The closing quote must be its last character.
scan : Mode → Text → Option Text
unfolding step
scan m [] = none
scan m (c ∷ s) = elim (step m c) [
  | emit d ↦ push d (scan plain s)
  | go n ↦ scan n s
  | close ↦ if is_empty s then some [] else none
  | fail ↦ none
]

-- strconv.Unquote, for a text that starts with a double quote.
unfoldable pub unquote : Text → Option Text
unfolding scan
unquote [] = none
unquote (c ∷ s) = if c == b'"' then scan plain s else none

-- A text in double quotes, with its quotes, backslashes and line ends escaped.
unfoldable pub quote_char : ℕ → Text
quote_char c =
    if c == b'"'
    then b'\\' ∷ b'"' ∷ []
    else if c == b'\\'
    then b'\\' ∷ b'\\' ∷ []
    else if c == 10
    then b'\\' ∷ b'n' ∷ []
    else c ∷ []

unfoldable pub quote_body : Text → Text
unfolding quote_char
quote_body [] = []
quote_body (c ∷ s) = quote_char c ++ quote_body s

unfoldable pub quote : Text → Text
unfolding quote_body
quote s = b'"' ∷ (quote_body s ++ b'"' ∷ [])

scan-quote_char : (c : ℕ) (s : Text) → scan plain (quote_char c ++ s) ≡ push c (scan plain s)
unfolding scan quote_char
scan-quote_char c s = ground arith

scan-quote_body : (s : Text) → scan plain (quote_body s ++ b'"' ∷ []) ≡ some s
unfolding quote_body
scan-quote_body [] = unfold scan in refl
scan-quote_body (c ∷ s) =
    rw append_assoc
      (scan-quote_char c (quote_body s ++ b'"' ∷ []) ∙ ap (push c) (scan-quote_body s))

-- Unquoting gives back what was quoted.
pub unquote-quote : (s : Text) → unquote (quote s) ≡ some s
unfolding unquote quote
unquote-quote s = scan-quote_body s

unquote_tests :
    (unquote (codes "\"a\\x41\\101\\u00e9\"") ≡ some (b'a' ∷ b'A' ∷ b'A' ∷ 233 ∷ []))
    × (unquote (codes "\"a\"b\"") ≡ none)
    × (unquote (codes "\"\\'\"") ≡ none)
unfolding unquote
unquote_tests = (refl, refl, refl)
