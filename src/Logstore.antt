-- ===== src/Logstore.antt =====
-- logstore.py: `LogContainerWriter`, the lines of a build by derivation, of which each keeps its
-- first and its last ones.
pub mod Halves
pub mod Tests
use nixbot.Prelude.{
  ℕ, zero, suc, ◌+◌, ◌/◌, max, Bool, true, false, not, ◌&&◌, Option, none, some, List, [], ◌∷◌,
  ◌++◌, Dict, get, put, filter_map, length, ltb, ◌==◌, string_eq, nat_eq, if◌then◌else◌, String,
}

-- `_Drv`; a phase has its name and its first line
pub record Drv : Type 0 where
  pub name : String
  pub status : String
  pub phases : List (String × ℕ)
  pub t0 : Option ℕ
  pub t1 : Option ℕ
  pub head : List String
  pub tail : List String
  pub dropped : ℕ

abbrev pub new_drv : String → Drv
new_drv name = record {
  name = name;
  status = "built";
  phases = [];
  t0 = none;
  t1 = none;
  head = [];
  tail = [];
  dropped = 0;
}

-- The tail is a line too long.
abbrev pub pop_tail : ℕ → List String → Drv → Drv
pop_tail half [] d = record d { tail = [] }
pop_tail half (text ∷ tail) d =
    if ltb half (length (text ∷ tail))
    then record d { tail = tail; dropped = d.dropped + 1 }
    else record d { tail = text ∷ tail }

unfoldable pub append : String → ℕ → Drv → Drv
append text half d =
    if ltb (length d.head) half
    then record d { head = d.head ++ text ∷ [] }
    else pop_tail half (d.tail ++ text ∷ []) d

abbrev pub line_count : Drv → ℕ
line_count d = length d.head + (if ltb 0 d.dropped then 1 else 0) + length d.tail

-- The text of the line that stands for those left out is a parameter, as it formats a number.
unfoldable pub drv_lines : (ℕ → String) → Drv → List String
drv_lines elided d =
    if ltb 0 d.dropped then d.head ++ elided d.dropped ∷ d.tail else d.head ++ d.tail

pub record LogContainerWriter : Type 0 where
  pub half : ℕ
  pub drvs : Dict String Drv

abbrev pub new_container : ℕ → LogContainerWriter
new_container max_lines = record { half = max 1 (max_lines / 2); drvs = [] }

-- `_get`: the derivation, new or with the given name
abbrev pub with_name : Option String → Drv → Drv
with_name none d = d
with_name (some name) d = record d { name = name }

abbrev pub name_or : Option String → String → String
name_or none drv = drv
name_or (some name) drv = if name == "" then drv else name

unfoldable pub get_drv : String → Option String → LogContainerWriter → Drv
get_drv drv name w = elim (get w.drvs drv) [
  | none ↦ new_drv (name_or name drv)
  | some d ↦ with_name name d
]

abbrev pub store : String → Drv → LogContainerWriter → LogContainerWriter
store drv d w = record w { drvs = put drv d w.drvs }

abbrev pub register_name : String → Option String → LogContainerWriter → LogContainerWriter
register_name drv name w = store drv (get_drv drv name w) w

abbrev pub seen_at : ℕ → Drv → Drv
seen_at ts d = record d { t0 = elim d.t0 [ none ↦ some ts | some t ↦ some t ]; t1 = some ts }

-- `line`, with a time and without a name
abbrev pub add_line : String → String → ℕ → LogContainerWriter → LogContainerWriter
add_line drv text ts w = store drv (append text w.half (seen_at ts (get_drv drv none w))) w

abbrev pub is_last_phase : String → List (String × ℕ) → Bool
is_last_phase phase [] = false
is_last_phase phase ((name, first) ∷ []) = name == phase
is_last_phase phase (_ ∷ p ∷ phases) = is_last_phase phase (p ∷ phases)

abbrev pub add_phase : String → String → ℕ → LogContainerWriter → LogContainerWriter
add_phase drv phase ts w =
    let d = get_drv drv none w in
    let d' =
      if is_last_phase phase d.phases
      then d
      else record d { phases = d.phases ++ (phase, line_count d) ∷ [] } in
    store drv (record d' { t1 = some ts }) w

abbrev pub put_status : String → String → LogContainerWriter → LogContainerWriter
put_status drv status w = store drv (record (get_drv drv none w) { status = status }) w

abbrev pub stop_drv : String → ℕ → LogContainerWriter → LogContainerWriter
stop_drv drv ts w = store drv (record (get_drv drv none w) { t1 = some ts }) w

abbrev pub failed_drv : (ℕ → String) → String × Drv → Option (String × List String)
failed_drv elided (drv, d) =
    if d.status == "failed" then some (d.name, drv_lines elided d) else none

abbrev pub failing : (ℕ → String) → LogContainerWriter → List (String × List String)
failing elided w = filter_map (failed_drv elided) w.drvs
