-- ===== src/Tests/Strings.antt =====
-- The helpers on strings.
use prebyte.Base.{[], ◌∷◌, ◌≡◌, refl, str}
use prebyte.Text.{is_space, trim, split, join, replace_tabs}
use prebyte.Text.Split.{Lacks, join-split, split-join}
use prebyte.Text.Case.{replace_tabs-Lacks}
use prebyte.Text.Trim.{Starts, Ends, trim_lem}

join-split_example : join (split (str "a,b,") b',') (b',' ∷ []) ≡ str "a,b,"
join-split_example = join-split (str "a,b,") b','

split-join_example : split (join (str "a" ∷ str "b" ∷ []) (b',' ∷ [])) b',' ≡ str "a" ∷ str "b" ∷ []
unfolding str
split-join_example = split-join (str "a") (str "b" ∷ []) b',' ((refl, tt), ((refl, tt), tt))

replace_tabs-Lacks_example : Lacks b'\t' (replace_tabs (b'a' ∷ b'\t' ∷ []) 4)
replace_tabs-Lacks_example = replace_tabs-Lacks (b'a' ∷ b'\t' ∷ []) 4

trim_lem_example :
    Starts is_space (trim (str " a b "))
    × Ends is_space (trim (str " a b "))
    × (trim (trim (str " a b ")) ≡ trim (str " a b "))
trim_lem_example = trim_lem (str " a b ")
