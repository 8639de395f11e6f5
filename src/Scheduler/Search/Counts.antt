-- ===== src/Scheduler/Search/Counts.antt =====
-- build_scheduler.py, `get_failed_dependents`: counting the jobs seen and not seen by the search.
use nixbot.Prelude.{
  suc, ◌+◌, ◌≤◌, String, ◌≡◌, refl, Bool, true, false, not, ◌&&◌, List, [], ◌∷◌, arith, elem,
  elem-nil, elem-cons, string_eq, ◌==◌, length, count,
}
use nixbot.Models.{NixEvalJobSuccess}
use nixbot.Scheduler.Closures.{drvs, by_drv}

pub count-none :
    (p : NixEvalJobSuccess → Bool) (l : List NixEvalJobSuccess)
    → 0 ≡ count (λ j. p j && elem j.drv_path []) l
count-none p [] = refl
count-none p (j ∷ l) = ground (arith, count-none p l, elem-nil j.drv_path)

pub count-all : (l : List NixEvalJobSuccess) → count (λ j. not (elem j.drv_path [])) l ≤ length l
count-all [] = omega arith
count-all (j ∷ l) = ground (arith, count-all l)

-- What the walk has removed, counted by the derivations that it has seen.
pub count-seen :
    (p : NixEvalJobSuccess → Bool) (d : String) (seen : List String) (l : List NixEvalJobSuccess)
    → elem d seen ≡ false
    → count (λ j. p j && elem j.drv_path seen) l + count p (by_drv l d)
      ≡ count (λ j. p j && elem j.drv_path (d ∷ seen)) l
unfolding by_drv
count-seen p d seen [] h = omega arith
count-seen p d seen (j ∷ l) h = ground (
  arith,
  count-seen p d seen l h,
  elem-cons j.drv_path d seen,
  string_eq.beq_iff j.drv_path d,
  string_eq.beq_iff d j.drv_path,
)

pub elem-drvs-by_drv :
    (d e : String) (l : List NixEvalJobSuccess)
    → elem e (drvs (by_drv l d)) ≡ (d == e && elem d (drvs l))
unfolding by_drv elem
elem-drvs-by_drv d e [] = ground arith
elem-drvs-by_drv d e (j ∷ l) = ground (
  arith,
  elem-drvs-by_drv d e l,
  string_eq.beq_iff j.drv_path d,
  string_eq.beq_iff j.drv_path e,
  string_eq.beq_iff d e,
)

-- Seeing the derivation of a pending job leaves fewer jobs unseen.
pub count-unseen_le :
    (d : String) (seen : List String) (l : List NixEvalJobSuccess)
    → count (λ j. not (elem j.drv_path (d ∷ seen))) l ≤ count (λ j. not (elem j.drv_path seen)) l
count-unseen_le d seen [] = omega arith
count-unseen_le d seen (j ∷ l) =
    ground (arith, count-unseen_le d seen l, elem-cons j.drv_path d seen)

pub count-unseen :
    (d : String) (seen : List String) (l : List NixEvalJobSuccess)
    → elem d (drvs l) ≡ true
    → elem d seen ≡ false
    → suc (count (λ j. not (elem j.drv_path (d ∷ seen))) l)
      ≤ count (λ j. not (elem j.drv_path seen)) l
count-unseen d seen [] m new = cc (elem-nil d)
count-unseen d seen (j ∷ l) m new = ground (
  arith,
  elem-cons j.drv_path d seen,
  elem-cons d j.drv_path (drvs l),
  string_eq.beq_iff j.drv_path d,
  string_eq.beq_iff d j.drv_path,
  count-unseen_le d seen l,
  count-unseen d seen l,
)
