-- ===== src/Logstore/Tests.antt =====
-- logstore.py, `_Drv`: five lines of which four are kept.
use nixbot.Prelude.{ℕ, ◌-◌, ◌≡◌, List, [], ◌∷◌, ◌++◌, length, min, String}
use nixbot.Logstore.{new_drv, drv_lines}
use nixbot.Logstore.Halves.{add_all, elision, append-lines}

abbrev elided : ℕ → String
elided n = "lines elided"

abbrev texts : List String
texts = "a" ∷ "b" ∷ "c" ∷ "d" ∷ "e" ∷ []

append-lines_example :
    (first lost last : List String) × (texts ≡ first ++ (lost ++ last))
    × (drv_lines elided (add_all texts 2 (new_drv "hello"))
        ≡ first ++ (elision elided lost ++ last))
    × (length first ≡ min 2 (length texts))
    × (length last ≡ min 2 (length texts - 2))
append-lines_example = append-lines elided 2 "hello" texts
