-- ===== src/Executor/Capture/Positions.antt =====
-- executor.py, `StructuredCapture`: the position of a derivation in the container.
use nixbot.Prelude.{
  ℕ, suc, ◌+◌, ◌≡◌, refl, ap, Option, none, some, [], ◌∷◌, Dict, get, put, length, ◌==◌, string_eq,
  nat_eq, if◌then◌else◌, String, Bool-cases, Option-cases, inl, inr, arith,
}
use nixbot.Logstore.{Drv}

abbrev pub next : Option ℕ → Option ℕ
next none = none
next (some i) = some (i + 1)

-- The position of a key, in the order of first insertion.
unfoldable pub position : String → Dict String Drv → Option ℕ
position drv [] = none
position drv ((other, d) ∷ drvs) =
    let rest = next (position drv drvs) in if other == drv then some 0 else rest

pub position-none :
    (drv : String) (drvs : Dict String Drv) → position drv drvs ≡ none → get drvs drv ≡ none
unfolding position get
position-none drv [] h = refl
position-none drv ((other, d) ∷ drvs) h = ground (arith, h, position-none drv drvs)

pub position-some :
    (drv : String) (drvs : Dict String Drv) (i : ℕ)
    → position drv drvs ≡ some i
    → (d : Drv) × (get drvs drv ≡ some d)
unfolding position get
position-some drv [] i h = absurd (ground (arith, h))
position-some drv ((other, d) ∷ drvs) i h = elim (Bool-cases (other == drv)) [
  | inl e ↦ (d, rw (e, get) refl)
  | inr e ↦ elim (Option-cases (position drv drvs)) [
    | inl n ↦ absurd (ground (arith, rw (e, position, n) at h))
    | inr (j, p) ↦ let (d', g) = position-some drv drvs j p in (d', rw (e, get) g)
  ]
]

pub position-put_known :
    (drv other : String) (d : Drv) (drvs : Dict String Drv) (i : ℕ)
    → position drv drvs ≡ some i
    → (position other (put drv d drvs) ≡ position other drvs)
      × (length (put drv d drvs) ≡ length drvs)
unfolding position put
position-put_known drv other d [] i h = absurd (ground (arith, h))
position-put_known drv other d ((key, e) ∷ drvs) i h = elim (Bool-cases (key == drv)) [
  | inl s ↦ rw (s, put) (ground (arith, s, string_eq.beq_iff key drv), refl)
  | inr s ↦ elim (Option-cases (position drv drvs)) [
    | inl n ↦ absurd (ground (arith, rw (s, position, n) at h))
    | inr (j, p) ↦
        let (same, size) = position-put_known drv other d drvs j p in
        rw (s, put) (rw same refl, ap suc size)
  ]
]

pub position-put_new :
    (drv other : String) (d : Drv) (drvs : Dict String Drv)
    → position drv drvs ≡ none
    → (position other (put drv d drvs)
        ≡ (if drv == other then some (length drvs) else position other drvs))
      × (length (put drv d drvs) ≡ length drvs + 1)
unfolding position put
position-put_new drv other d [] h = (refl, refl)
position-put_new drv other d ((key, e) ∷ drvs) h = elim (Bool-cases (key == drv)) [
  | inl s ↦ absurd (ground (arith, rw (s, position) at h))
  | inr s ↦
      let none_behind : position drv drvs ≡ none = ground (arith, h, s) in
      let (same, size) = position-put_new drv other d drvs none_behind in
      rw (s, put)
        (
          ground (
            arith,
            same,
            s,
            string_eq.beq_iff key other,
            string_eq.beq_iff drv other,
            string_eq.beq_iff key drv,
          ),
          omega (arith, size),
        )
]

-- What a write to a dict does to its length.
pub length-put_new :
    (drv : String) (i : ℕ) (idx : Dict String ℕ)
    → get idx drv ≡ none
    → length (put drv i idx) ≡ length idx + 1
unfolding get put
length-put_new drv i [] h = refl
length-put_new drv i ((key, j) ∷ idx) h = ground (arith, h, length-put_new drv i idx)
