-- ===== src/Template/Lexer/Texts.antt =====
-- template/lexer/TemplateLexerText.cpp: literal text, up to and with an opening delimiter.
use prebyte.Base.{true, false, not, [], ◌∷◌, ◌++◌, Bytes, ◌==◌, if◌then◌else◌}
use prebyte.Result.{SourceLocation}
use prebyte.Template.Token.{text, tag_open}
use prebyte.Template.Lexer.Cursor.{scan_while, advance_literal}
use prebyte.Template.Lexer.State.{
  Delimiters, Lexer, peek, match_literal, trim_left_ascii_whitespace, trim_back, make_token,
}

module _ (d : Delimiters) where
  -- An opening delimiter is read.
  unfoldable pub open_tag : Lexer → Lexer
  open_tag lx =
      let opened = advance_literal d.tag_prefix lx.at lx.rest in
      let trim_left = peek opened.rest 0 == b'-' in
      let s = if trim_left then advance_literal (b'-' ∷ []) opened.at opened.rest else opened in
      record lx {
        rest = s.rest;
        at = s.at;
        tokens =
            (if trim_left then trim_back lx.tokens else lx.tokens)
            ++ make_token d tag_open d.tag_prefix lx.at s.at trim_left false ∷ [];
        inside_tag = true;
      }

  abbrev pub add_text : Bytes → SourceLocation → Lexer → Lexer
  add_text [] start lx = lx
  add_text (c ∷ cs) start lx = record lx {
    tokens = lx.tokens ++ make_token d text (c ∷ cs) start lx.at false false ∷ [];
  }

  -- The text up to the next opening delimiter becomes a token, unless it is empty.
  unfoldable pub read_text : Lexer → Lexer
  read_text lx =
      let s = scan_while (λ rest. not (match_literal rest d.tag_prefix)) lx.at lx.rest in
      let value = if lx.trim_next_text_left then trim_left_ascii_whitespace s.value else s.value in
      add_text value lx.at (record lx { rest = s.rest; at = s.at; trim_next_text_left = false })

  -- The end of `lex_text`, at the bytes that are left.
  abbrev pub after_text : Bytes → Lexer → Lexer
  after_text [] lx = lx
  after_text (c ∷ cs) lx = if match_literal (c ∷ cs) d.tag_prefix then open_tag lx else lx

  unfoldable pub lex_text : Lexer → Lexer
  lex_text lx = let read = read_text lx in after_text read.rest read
