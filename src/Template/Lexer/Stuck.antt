-- ===== src/Template/Lexer/Stuck.antt =====
-- template/lexer/TemplateLexerCore.cpp: `lex` with two empty delimiters, which the rules of a
-- settings file can set.
use prebyte.Base.{ℕ, zero, suc, Bool, true, false, List, [], ◌∷◌, ◌++◌, ◌≡◌, refl, Bytes, ◌==◌}
use prebyte.Text.{is_space, starts_with}
use prebyte.Result.{SourceLocation, ok, out_of_fuel}
use prebyte.Template.Token.{TemplateToken, tag_open, tag_close}
use prebyte.Template.Lexer.{round, run}
use prebyte.Template.Lexer.Cursor.{scan_while, advance_literal}
use prebyte.Template.Lexer.State.{
  Delimiters, Lexer, initial, make_token, start_location, trim_left_ascii_whitespace,
}
use prebyte.Template.Lexer.Texts.{open_tag, read_text, lex_text}
use prebyte.Template.Lexer.Tag.{lex_inside_tag, lex_tag_token, try_lex_tag_close}

abbrev pub no_delimiters : Bytes → Delimiters
no_delimiters file_path = record { file_path = file_path; tag_prefix = []; tag_suffix = [] }

module _ (file_path : Bytes) (c : ℕ) (cs : Bytes) (blank : is_space c ≡ false)
    (dash : (c == b'-') ≡ false) where
  abbrev before : SourceLocation → List TemplateToken → Bool → Bool → Lexer
  before at tokens inside trim = record {
    rest = c ∷ cs;
    at = at;
    tokens = tokens;
    inside_tag = inside;
    trim_next_text_left = trim;
  }

  text_round :
      (at : SourceLocation) (tokens : List TemplateToken) (trim : Bool)
      → (more : List TemplateToken) × (lex_text
            (no_delimiters file_path)
            (before at tokens false trim)
          ≡ before at more true false)
  unfolding lex_text open_tag read_text scan_while advance_literal starts_with
      trim_left_ascii_whitespace
  text_round at tokens true = (
    tokens ++ make_token (no_delimiters file_path) tag_open [] at at false false ∷ [],
    rw dash refl,
  )
  text_round at tokens false = (
    tokens ++ make_token (no_delimiters file_path) tag_open [] at at false false ∷ [],
    rw dash refl,
  )

  tag_round :
      (at : SourceLocation) (tokens : List TemplateToken) (trim : Bool)
      → (more : List TemplateToken) × (lex_inside_tag
            (no_delimiters file_path)
            (before at tokens true trim)
          ≡ ok (before at more false trim))
  unfolding lex_inside_tag lex_tag_token try_lex_tag_close scan_while advance_literal starts_with
  tag_round at tokens trim = (
    tokens ++ make_token (no_delimiters file_path) tag_close [] at at false false ∷ [],
    rw blank refl,
  )

  run-stuck :
      (fuel : ℕ) (at : SourceLocation) (tokens : List TemplateToken) (inside trim : Bool)
      → run (no_delimiters file_path) fuel (before at tokens inside trim) ≡ out_of_fuel
  unfolding run round
  run-stuck zero at tokens inside trim = refl
  run-stuck (suc fuel) at tokens true trim =
      let (more, e) = tag_round at tokens trim in rw e (run-stuck fuel at more false trim)
  run-stuck (suc fuel) at tokens false trim =
      let (more, e) = text_round at tokens trim in rw e (run-stuck fuel at more true false)

-- With both delimiters empty, on a source that begins with neither white space nor a dash, no amount
-- of fuel is enough for the lexer: it adds opening and closing tokens forever and reads nothing.
pub run-out_of_fuel :
    (file_path : Bytes) (c : ℕ) (cs : Bytes) (fuel : ℕ)
    → is_space c ≡ false
    → (c == b'-') ≡ false
    → run (no_delimiters file_path) fuel (initial (c ∷ cs)) ≡ out_of_fuel
run-out_of_fuel file_path c cs fuel blank dash =
    run-stuck file_path c cs blank dash fuel start_location [] false false
