-- ===== src/Template/Parser/Names.antt =====
-- template/parser/TemplateParserInternals.cpp: the names that a template may not bind.
use prebyte.Base.{Bool, true, false, ◌||◌, List, [], ◌∷◌, Bytes, str, equal, if◌then◌else◌}

abbrev pub builtin_names : List Bytes
builtin_names =
    str "__TIME__"
    ∷ str "__LINE__"
    ∷ str "__FILE__"
    ∷ str "__FILENAME__"
    ∷ str "__DIR__"
    ∷ str "__EXTENSION__"
    ∷ str "__DATE__"
    ∷ str "__TIMESTAMP__"
    ∷ str "__YEAR__"
    ∷ str "__MONTH__"
    ∷ str "__DAY__"
    ∷ str "__UNIX_EPOCH__"
    ∷ str "__USER__"
    ∷ str "__HOST__"
    ∷ str "__OS__"
    ∷ str "__WORKING_DIR__"
    ∷ str "__UUID__"
    ∷ str "__RANDOM__"
    ∷ []

abbrev pub keyword_names : List Bytes
keyword_names =
    str "if"
    ∷ str "elseif"
    ∷ str "else"
    ∷ str "endif"
    ∷ str "for"
    ∷ str "in"
    ∷ str "endfor"
    ∷ str "include"
    ∷ str "set"
    ∷ str "lua"
    ∷ str "fn"
    ∷ str "endfn"
    ∷ str "endlua"
    ∷ str "len"
    ∷ []

unfoldable pub contains_name : List Bytes → Bytes → Bool
contains_name [] name = false
contains_name (n ∷ names) name = if equal n name then true else contains_name names name

unfoldable pub is_reserved_name : Bytes → Bool
is_reserved_name name =
    equal name (str "loop")
    || equal name (str "ARGS")
    || contains_name builtin_names name
    || contains_name keyword_names name

abbrev pub is_reserved_loop_binding : Bytes → Bool
is_reserved_loop_binding name = is_reserved_name name
