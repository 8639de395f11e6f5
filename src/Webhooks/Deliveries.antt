-- ===== src/Webhooks/Deliveries.antt =====
-- webhooks.py: `DeliveryDeduper`, the deliveries that were seen, the oldest first.
use nixbot.Prelude.{
  ℕ, Bool, true, false, not, List, [], ◌∷◌, ◌++◌, String, if◌then◌else◌, ◌==◌, string_eq, elem,
  length, ltb, filter,
}

pub record DeliveryDeduper : Type 0 where
  pub limit : ℕ
  pub seen : List String

abbrev pub without : String → List String → List String
without guid seen = filter (λ other. not (guid == other)) seen

-- the answer, and the set in which the delivery has become the most recent one
unfoldable pub is_duplicate : String → DeliveryDeduper → Bool × DeliveryDeduper
is_duplicate guid d =
    if guid == ""
    then (false, d)
    else if elem guid d.seen
    then (true, record d { seen = without guid d.seen ++ guid ∷ [] })
    else (false, d)

abbrev pub pop_first : List String → List String
pop_first [] = []
pop_first (_ ∷ seen) = seen

-- `popitem(last=False)` where the set has outgrown its capacity
abbrev pub evict : DeliveryDeduper → DeliveryDeduper
evict d = if ltb d.limit (length d.seen) then record d { seen = pop_first d.seen } else d

-- An assignment to a key that is there leaves it at its place.
unfoldable pub record_delivery : String → DeliveryDeduper → DeliveryDeduper
record_delivery guid d =
    if guid == ""
    then d
    else evict (if elem guid d.seen then d else record d { seen = d.seen ++ guid ∷ [] })

unfoldable pub forget : String → DeliveryDeduper → DeliveryDeduper
forget guid d = record d { seen = without guid d.seen }
