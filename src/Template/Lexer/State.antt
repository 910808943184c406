-- ===== src/Template/Lexer/State.antt =====
-- The fields of `TemplateLexer`, and the helpers that its scanners share.
use prebyte.Base.{ℕ, Bool, false, ◌||◌, List, [], ◌∷◌, ◌++◌, Bytes, ◌==◌, if◌then◌else◌, get_or}
use prebyte.Result.{SourceLocation}
use prebyte.Text.{starts_with, drop_while, drop_while_end}
use prebyte.Template.Token.{TemplateTokenType, TemplateToken, is, text}
use prebyte.Template.Lexer.Cursor.{Scan}

-- What the constructor of `TemplateLexer` is given beside the source.
pub record Delimiters : Type 0 where
  pub file_path : Bytes
  pub tag_prefix : Bytes
  pub tag_suffix : Bytes

pub record Lexer : Type 0 where
  pub rest : Bytes
  pub at : SourceLocation
  pub tokens : List TemplateToken
  pub inside_tag : Bool
  pub trim_next_text_left : Bool

abbrev pub start_location : SourceLocation
start_location = record { offset = 0; line = 1; column = 1 }

abbrev pub initial : Bytes → Lexer
initial source = record {
  rest = source;
  at = start_location;
  tokens = [];
  inside_tag = false;
  trim_next_text_left = false;
}

-- `peek`: a zero byte beyond the end.
abbrev pub peek : Bytes → ℕ → ℕ
peek rest offset = get_or rest offset 0

-- `match_literal`
abbrev pub match_literal : Bytes → Bytes → Bool
match_literal rest literal = starts_with rest literal

unfoldable pub is_ascii_whitespace : ℕ → Bool
is_ascii_whitespace ch = ch == b' ' || ch == b'\t' || ch == b'\n' || ch == b'\r'

unfoldable pub trim_right_ascii_whitespace : Bytes → Bytes
unfolding drop_while_end is_ascii_whitespace
trim_right_ascii_whitespace value = drop_while_end is_ascii_whitespace value

unfoldable pub trim_left_ascii_whitespace : Bytes → Bytes
unfolding drop_while is_ascii_whitespace
trim_left_ascii_whitespace value = drop_while is_ascii_whitespace value

-- The trim of `tokens_.back()`, which is dropped if nothing of it is left.
abbrev pub trim_back_token : TemplateToken → List TemplateToken
trim_back_token t = elim (trim_right_ascii_whitespace t.lexeme) [
  | [] ↦ []
  | c ∷ cs ↦ record t { lexeme = c ∷ cs } ∷ []
]

unfoldable pub trim_back : List TemplateToken → List TemplateToken
unfolding trim_right_ascii_whitespace is
trim_back [] = []
trim_back (t ∷ []) = if is t.type text then trim_back_token t else t ∷ []
trim_back (t ∷ u ∷ rest) = t ∷ trim_back (u ∷ rest)

module _ (d : Delimiters) where
  -- `make_span` and `add_token`: the span runs from `start` to the cursor.
  abbrev pub make_token :
      TemplateTokenType → Bytes → SourceLocation → SourceLocation → Bool → Bool → TemplateToken
  make_token type lexeme start end trim_left trim_right = record {
    type = type;
    lexeme = lexeme;
    span = record { file_path = d.file_path; start = start; end = end };
    trim_left = trim_left;
    trim_right = trim_right;
  }

  -- The token is added, and the cursor stands behind what was scanned.
  abbrev pub add_token : TemplateTokenType → Scan → Lexer → Lexer
  add_token type s lx = record lx {
    rest = s.rest;
    at = s.at;
    tokens = lx.tokens ++ make_token type s.value lx.at s.at false false ∷ [];
  }
