-- ===== src/Text.antt =====
-- support/TextUtil.h: the helpers on strings. Bytes are classed as in the "C" locale, which the
-- program never leaves.
pub mod Split
pub mod Case
pub mod Trim
use prebyte.Base.{
  ℕ, ◌+◌, ◌-◌, Bool, true, false, ◌&&◌, ◌||◌, List, [], ◌∷◌, ◌++◌, Bytes, equal, leb, ◌==◌,
  if◌then◌else◌, length, drop, replicate,
}

abbrev pub within : ℕ → ℕ → ℕ → Bool
within lo hi c = leb lo c && leb c hi

-- `std::isspace`, `std::isdigit`, `std::isalpha` and `std::tolower` of an unsigned byte.
unfoldable pub is_space : ℕ → Bool
is_space c = c == 32 || within 9 13 c

unfoldable pub is_digit : ℕ → Bool
is_digit c = within b'0' b'9' c

unfoldable pub is_alpha : ℕ → Bool
is_alpha c = within b'a' b'z' c || within b'A' b'Z' c

unfoldable pub lower_byte : ℕ → ℕ
lower_byte c = if within b'A' b'Z' c then c + 32 else c

-- The erase from the start up to the first byte that the test does not take.
unfoldable pub drop_while : (ℕ → Bool) → Bytes → Bytes
drop_while p [] = []
drop_while p (c ∷ cs) = if p c then drop_while p cs else c ∷ cs

abbrev keep_byte : (ℕ → Bool) → ℕ → Bytes → Bytes
keep_byte p c [] = if p c then [] else c ∷ []
keep_byte p c (d ∷ ds) = c ∷ d ∷ ds

-- The erase behind the last byte that the test does not take.
unfoldable pub drop_while_end : (ℕ → Bool) → Bytes → Bytes
drop_while_end p [] = []
drop_while_end p (c ∷ cs) = keep_byte p c (drop_while_end p cs)

unfoldable pub trim : Bytes → Bytes
unfolding drop_while drop_while_end is_space
trim value = drop_while_end is_space (drop_while is_space value)

unfoldable pub to_lower : Bytes → Bytes
unfolding lower_byte
to_lower [] = []
to_lower (c ∷ cs) = lower_byte c ∷ to_lower cs

-- `value.substr(0, prefix.size()) == prefix`, for a value that is long enough.
unfoldable pub starts_with : Bytes → Bytes → Bool
starts_with value [] = true
starts_with [] (p ∷ ps) = false
starts_with (c ∷ cs) (p ∷ ps) = c == p && starts_with cs ps

unfoldable pub ends_with : Bytes → Bytes → Bool
unfolding equal
ends_with value suffix =
    leb (length suffix) (length value) && equal (drop (length value - length suffix) value) suffix

-- The loop of `split`; `current` is the part read so far.
split_onto : Bytes → Bytes → ℕ → List Bytes
split_onto current [] delimiter = current ∷ []
split_onto current (c ∷ cs) delimiter =
    let closed = current ∷ split_onto [] cs delimiter in
    let longer = split_onto (current ++ c ∷ []) cs delimiter in
    if c == delimiter then closed else longer

unfoldable pub split : Bytes → ℕ → List Bytes
unfolding split_onto
split value delimiter = split_onto [] value delimiter

-- A delimiter stands in front of every part but the first.
join_more : List Bytes → Bytes → Bytes
join_more [] delimiter = []
join_more (part ∷ parts) delimiter = delimiter ++ (part ++ join_more parts delimiter)

unfoldable pub join : List Bytes → Bytes → Bytes
unfolding join_more
join [] delimiter = []
join (part ∷ parts) delimiter = part ++ join_more parts delimiter

abbrev pub repeat : ℕ → ℕ → Bytes
repeat ch count = replicate count ch

unfoldable pub replace_tabs : Bytes → ℕ → Bytes
replace_tabs [] tab_size = []
replace_tabs (c ∷ cs) tab_size =
    (if c == b'\t' then repeat b' ' tab_size else c ∷ []) ++ replace_tabs cs tab_size

unfoldable pub is_identifier_start : ℕ → Bool
unfolding is_alpha
is_identifier_start c = is_alpha c || c == b'_'

unfoldable pub is_identifier_part : ℕ → Bool
unfolding is_alpha is_digit
is_identifier_part c = is_alpha c || is_digit c || c == b'_' || c == b':'
