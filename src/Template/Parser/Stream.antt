-- ===== src/Template/Parser/Stream.antt =====
-- template/parser/TemplateParserCore.cpp: the cursor of `TemplateParser` over its tokens.
use prebyte.Base.{
  ℕ, Bool, true, false, ◌&&◌, not, List, [], ◌∷◌, Bytes, str, if◌then◌else◌, get_or, drop,
}
use prebyte.Result
use prebyte.Result.{
  SourceSpan, SourceLocation, error, Diagnostic, diagnostic_error, Result, ok, err, out_of_fuel,
}
use prebyte.Template.Token.{TemplateTokenType, TemplateToken, is, end_of_file, tag_open}

-- The tokens from `current_` on, and `tokens_.back()`, which is read beyond them.
pub record Stream : Type 0 where
  pub rest : List TemplateToken
  pub back : TemplateToken

-- A method of the parser: it reads tokens, and may throw.
abbrev pub Parser {ℓ} : Type ℓ → Type ℓ
Parser A = Stream → Result (A × Stream)

unfoldable pub pure {ℓ} : {A : Type ℓ} → A → Parser A
pure a s = ok (a, s)

unfoldable pub exhausted {ℓ} : {A : Type ℓ} → Parser A
exhausted s = out_of_fuel

module _ {ℓ κ} {A : Type ℓ} {B : Type κ} where
  infixl 1 ◌>>=◌ ◌>>◌
  unfoldable pub ◌>>=◌ : Parser A → (A → Parser B) → Parser B
  p >>= f = λ s. Result.◌>>=◌ (p s) λ (a, rest). f a rest

  abbrev pub ◌>>◌ : Parser A → Parser B → Parser B
  p >> q = p >>= λ _. q

-- `make_error`
unfoldable pub make_error : TemplateToken → Bytes → Diagnostic
make_error token message = record {
  severity = error;
  code = str "PARSE001";
  message = message;
  span = token.span;
  snippet = token.lexeme;
  include_chain = [];
}

unfoldable pub fail_at {ℓ} : {A : Type ℓ} → TemplateToken → Bytes → Parser A
fail_at token message s = err (diagnostic_error (make_error token message))

unfoldable pub peek : Stream → ℕ → TemplateToken
peek s offset = get_or s.rest offset s.back

unfoldable pub check : TemplateTokenType → ℕ → Stream → Bool
check type offset s = is (peek s offset).type type

unfoldable pub is_at_end : Stream → Bool
is_at_end s = check end_of_file 0 s

-- Throws the error at the current token.
unfoldable pub fail_here {ℓ} : {A : Type ℓ} → Bytes → Parser A
fail_here message s = err (diagnostic_error (make_error (peek s 0) message))

-- The state behind the current token.
abbrev pub popped : Stream → Stream
popped s = record s { rest = drop 1 s.rest }

-- The token that `advance` returns is the current one; at the end it stays `tokens_.back()`.
unfoldable pub advance : Parser TemplateToken
advance s = ok (peek s 0, popped s)

unfoldable pub consume : TemplateTokenType → Bytes → Parser TemplateToken
consume type message s =
    if check type 0 s
    then ok (peek s 0, popped s)
    else err (diagnostic_error (make_error (peek s 0) message))

-- Does one of the types stand at the offset?
unfoldable pub check_any : List TemplateTokenType → ℕ → Stream → Bool
check_any [] offset s = false
check_any (type ∷ types) offset s = if check type offset s then true else check_any types offset s

-- `if (match(type)) { … } else { … }`; the first branch has the token that was matched,
-- `tokens_[current_ - 1]`.
unfoldable pub on_match {ℓ} :
    {A : Type ℓ} → TemplateTokenType → (TemplateToken → Parser A) → Parser A → Parser A
on_match type found other s = if check type 0 s then found (peek s 0) (popped s) else other s

-- The same for `match(a) || match(b) || …`.
unfoldable pub on_match_any {ℓ} :
    {A : Type ℓ} → List TemplateTokenType → (TemplateToken → Parser A) → Parser A → Parser A
on_match_any types found other s =
    if check_any types 0 s then found (peek s 0) (popped s) else other s

unfoldable pub is_terminator_ahead : List TemplateTokenType → Stream → Bool
is_terminator_ahead terminators s =
    check tag_open 0 s && not (is_at_end s) && check_any terminators 1 s

-- A condition on the state chooses how to go on.
unfoldable pub when {ℓ} : {A : Type ℓ} → (Stream → Bool) → Parser A → Parser A → Parser A
when test p q s = if test s then p s else q s

-- `span.end = location`
abbrev pub with_end : SourceSpan → SourceLocation → SourceSpan
with_end span location = record span { end = location }
