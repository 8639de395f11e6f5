-- ===== src/Webhooks/Recent.antt =====
-- webhooks.py, `DeliveryDeduper`: how long a delivery stays among the recent ones.
use nixbot.Prelude.{
  ℕ, ◌+◌, ◌≤◌, ◌<◌, ◌≡◌, true, false, not, ◌&&◌, inl, inr, is_nil, List, [], ◌∷◌, ◌++◌, String,
  if◌then◌else◌, ◌==◌, string_eq, elem, elem-append, length, length-append, ltb, arith, Bool-cases,
  nat_eq,
}
use nixbot.Webhooks.Deliveries.{
  DeliveryDeduper, is_duplicate, record_delivery, forget, without, pop_first, evict,
}

-- How many deliveries were seen after this one.
unfoldable pub behind : String → List String → ℕ
behind g [] = 0
behind g (x ∷ xs) = if x == g then length xs else behind g xs

behind-append :
    (g x : String) (l : List String) → elem g l ≡ true → behind g (l ++ x ∷ []) ≡ behind g l + 1
unfolding behind elem
behind-append g x [] h = ground (arith, h)
behind-append g x (y ∷ l) h = ground (
  arith,
  behind-append g x l,
  h,
  length-append l (x ∷ []),
  string_eq.beq_iff y g,
  string_eq.beq_iff g y,
)

pub behind-append_new :
    (g : String) (l : List String) → elem g l ≡ false → behind g (l ++ g ∷ []) ≡ 0
unfolding behind elem
behind-append_new g [] h = ground (arith, string_eq.beq_iff g g)
behind-append_new g (y ∷ l) h =
    ground (arith, behind-append_new g l, h, string_eq.beq_iff y g, string_eq.beq_iff g y)

pub elem-without :
    (g x : String) (l : List String) → elem g (without x l) ≡ (not (x == g) && elem g l)
unfolding elem
elem-without g x [] = ground arith
elem-without g x (y ∷ l) = ground (
  arith,
  elem-without g x l,
  string_eq.beq_iff x y,
  string_eq.beq_iff y g,
  string_eq.beq_iff g y,
  string_eq.beq_iff x g,
)

pub length-without :
    (x : String) (l : List String) → length (without x l) + (if elem x l then 1 else 0) ≤ length l
unfolding elem
length-without x [] = omega arith
length-without x (y ∷ l) =
    ground (arith, length-without x l, string_eq.beq_iff x y, string_eq.beq_iff y x)

behind-without :
    (g x : String) (l : List String) → (x == g) ≡ false → behind g (without x l) ≤ behind g l
unfolding behind
behind-without g x [] h = omega arith
behind-without g x (y ∷ l) h = ground (
  arith,
  behind-without g x l h,
  h,
  length-without x l,
  string_eq.beq_iff x y,
  string_eq.beq_iff y g,
  string_eq.beq_iff x g,
)

elem-pop_first :
    (g : String) (l : List String)
    → elem g l ≡ true
    → behind g l + 1 < length l
    → (elem g (pop_first l) ≡ true) × (behind g (pop_first l) ≡ behind g l)
unfolding behind elem
elem-pop_first g [] h room = ground (arith, h)
elem-pop_first g (y ∷ l) h room =
    ground (arith, h, room, string_eq.beq_iff y g, string_eq.beq_iff g y)

length-pop_first :
    (l : List String) → length (pop_first l) + 1 ≤ length l + (if is_nil l then 1 else 0)
length-pop_first [] = omega arith
length-pop_first (x ∷ l) = omega arith

-- The set respects its capacity, and at most n deliveries came after this one.
pub record IsRecent (g : String) (n limit : ℕ) (d : DeliveryDeduper) : Type 0 where
  pub seen : elem g d.seen ≡ true
  pub late : behind g d.seen ≤ n
  pub bounded : length d.seen ≤ limit
  pub capped : d.limit ≡ limit

pub later :
    (g : String) (n limit : ℕ) (d : DeliveryDeduper)
    → IsRecent g n limit d
    → IsRecent g (n + 1) limit d
later g n limit d c = record {
  seen = c.seen;
  late = omega (arith, c.late);
  bounded = c.bounded;
  capped = c.capped;
}

-- What a set that may have outgrown its capacity comes to.
pub evict-IsRecent :
    (g : String) (n limit : ℕ) (d : DeliveryDeduper)
    → elem g d.seen ≡ true
    → behind g d.seen ≤ n
    → n < limit
    → length d.seen ≤ limit + 1
    → d.limit ≡ limit
    → IsRecent g n limit (evict d)
evict-IsRecent g n limit d seen late room bounded capped =
    elim (Bool-cases (ltb d.limit (length d.seen))) [
      | inl e ↦
          let (still, same) =
            elem-pop_first g d.seen seen (ground (arith, e, late, room, bounded, capped)) in
          rw e (record {
            seen = still;
            late = omega (arith, same, late);
            bounded = ground (arith, length-pop_first d.seen, bounded, e);
            capped = capped;
          })
      | inr e ↦ rw e (record {
        seen = seen;
        late = late;
        bounded = ground (arith, e, capped);
        capped = capped;
      })
    ]

module _ (g other : String) (n limit : ℕ) (d : DeliveryDeduper) (c : IsRecent g n limit d)
    (differs : (other == g) ≡ false) where
  pub record-IsRecent : n + 1 < limit → IsRecent g (n + 1) limit (record_delivery other d)
  unfolding record_delivery
  record-IsRecent room = elim (Bool-cases (other == "")) [
    | inl e ↦ rw (e, record_delivery) (later g n limit d c)
    | inr e ↦ elim (Bool-cases (elem other d.seen)) [
      | inl i ↦
          rw (e, record_delivery, i)
            (evict-IsRecent g (n + 1) limit d c.seen (omega (arith, c.late)) room
              (omega (arith, c.bounded)) c.capped)
      | inr i ↦
          rw (e, record_delivery, i)
            (evict-IsRecent g (n + 1) limit (record d { seen = d.seen ++ other ∷ [] })
              (ground (arith, elem-append g d.seen (other ∷ []), c.seen))
              (omega (arith, behind-append g other d.seen c.seen, c.late)) room
              (omega (arith, length-append d.seen (other ∷ []), c.bounded)) c.capped)
    ]
  ]

  pub forget-IsRecent : IsRecent g n limit (forget other d)
  unfolding forget
  forget-IsRecent = record {
    seen = ground (arith, elem-without g other d.seen, c.seen, differs);
    late = omega (arith, behind-without g other d.seen differs, c.late);
    bounded = ground (arith, length-without other d.seen, c.bounded);
    capped = c.capped;
  }

  pub duplicate-IsRecent : IsRecent g (n + 1) limit (is_duplicate other d).1
  unfolding is_duplicate
  duplicate-IsRecent = elim (Bool-cases (other == "")) [
    | inl e ↦ rw (e, is_duplicate) (later g n limit d c)
    | inr e ↦ elim (Bool-cases (elem other d.seen)) [
      | inl i ↦
          rw (e, is_duplicate, i)
            (record {
              seen = ground (
                arith,
                elem-append g (without other d.seen) (other ∷ []),
                elem-without g other d.seen,
                c.seen,
                differs,
              );
              late = omega (
                arith,
                behind-append g other (without other d.seen)
                    (ground (arith, elem-without g other d.seen, c.seen, differs)),
                behind-without g other d.seen differs,
                c.late,
              );
              bounded = ground (
                arith,
                length-append (without other d.seen) (other ∷ []),
                length-without other d.seen,
                i,
                c.bounded,
              );
              capped = c.capped;
            })
      | inr i ↦ rw (e, is_duplicate, i) (later g n limit d c)
    ]
  ]

pub is_duplicate-miss :
    (guid : String) (d : DeliveryDeduper)
    → (is_duplicate guid d).0 ≡ false
    → (is_duplicate guid d).1 ≡ d
unfolding is_duplicate
is_duplicate-miss guid d h = ground (arith, h)

pub is_duplicate-hit :
    (guid : String) (d : DeliveryDeduper)
    → (guid == "") ≡ false
    → elem guid d.seen ≡ true
    → (is_duplicate guid d).0 ≡ true
unfolding is_duplicate
is_duplicate-hit guid d h i = ground (arith, h, i)
