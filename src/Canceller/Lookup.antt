-- ===== src/Canceller/Lookup.antt =====
-- canceller.py: what the operations leave in the two dicts, at each key.
use nixbot.Prelude.{
  ℕ, String, ◌≡◌, refl, inl, inr, Bool, true, false, not, ◌&&◌, ◌||◌, Option, none, some, List, [],
  ◌∷◌, arith, get, get-put, get-remove, discard, is_nil, elem, elem-cons, elem-nil, elem-filter,
  string_eq, nat_eq, pair_eq, ◌==◌, ==_refl, if◌then◌else◌, Bool-cases, Option-cases,
}
use nixbot.Canceller.{InFlightBuild, CancellationManager, update, add_context, release_context}

abbrev pub claims_of : Option InFlightBuild → ℕ → String → Bool
claims_of none p k = false
claims_of (some x) p k = x.project_id == p && elem k x.contexts

-- The tracked build of that number counts the context among its own.
abbrev pub claims : CancellationManager → ℕ → ℕ → String → Bool
claims m b p k = claims_of (get m.builds b) p k

pub elem-discard :
    (k key : String) (l : List String) → elem k (discard key l) ≡ (not (k == key) && elem k l)
elem-discard k key l = ground (arith, elem-filter k (λ x. not (x == key)) l)

pub nil_elem : (l : List String) (k : String) → is_nil l ≡ true → elem k l ≡ false
nil_elem [] k h = elem-nil k
nil_elem (x ∷ l) k h = cc

pub update-claims :
    (id : ℕ) (f : InFlightBuild → InFlightBuild) (m : CancellationManager) (b p : ℕ) (k : String)
    → ((x : InFlightBuild) → (f x).project_id ≡ x.project_id)
    → ((x : InFlightBuild) → (f x).contexts ≡ x.contexts)
    → claims (update id f m) b p k ≡ claims m b p k
unfolding update
update-claims id f m b p k hp hc = elim (Option-cases (get m.builds id)) [
  | inl e ↦ rw (e, update) refl
  | inr (x, e) ↦
      rw (e, update)
        (ground (arith, get-put m.builds id b (f x), nat_eq.beq_iff id b, e, hp x, hc x))
]

pub release-claims :
    (build : InFlightBuild) (key : String) (m : CancellationManager) (b p : ℕ) (k : String)
    → get m.builds build.build_id ≡ some build
    → claims (release_context build key m) b p k
      ≡ (claims m b p k && not (b == build.build_id && k == key))
unfolding release_context
release-claims build key m b p k e = elim (Bool-cases (is_nil (discard key build.contexts))) [
  | inl n ↦ rw n (
      ground (
        arith,
        get-remove m.builds build.build_id b,
        nat_eq.beq_iff build.build_id b,
        nat_eq.beq_iff b build.build_id,
        e,
        elem-discard k key build.contexts,
        nil_elem (discard key build.contexts) k n,
      ))
  | inr n ↦ rw n (
      ground (
        arith,
        get-put m.builds build.build_id b (record build { contexts = discard key build.contexts }),
        nat_eq.beq_iff build.build_id b,
        nat_eq.beq_iff b build.build_id,
        e,
        elem-discard k key build.contexts,
      ))
]

pub release-by_context :
    (build : InFlightBuild) (key : String) (m : CancellationManager) (p : ℕ) (k : String)
    → get (release_context build key m).by_context (p, k)
      ≡ (if build.project_id == p && key == k then none else get m.by_context (p, k))
unfolding release_context
release-by_context build key m p k =
    ground (arith, get-remove m.by_context (build.project_id, key) (p, k))

pub add_context-claims :
    (key : String) (id : ℕ) (m : CancellationManager) (x : InFlightBuild) (b p : ℕ) (k : String)
    → get m.builds id ≡ some x
    → claims (update id (add_context key) m) b p k
      ≡ (claims m b p k || (b == id && x.project_id == p && k == key))
unfolding update
add_context-claims key id m x b p k e =
    rw (e, update)
      (ground (
        arith,
        get-put m.builds id b (add_context key x),
        nat_eq.beq_iff id b,
        nat_eq.beq_iff b id,
        e,
        elem-cons k key (discard key x.contexts),
        elem-discard k key x.contexts,
        string_eq.beq_iff k key,
        string_eq.beq_iff key k,
      ))

pub update-by_context :
    (id : ℕ) (f : InFlightBuild → InFlightBuild) (m : CancellationManager)
    → (update id f m).by_context ≡ m.by_context
unfolding update
update-by_context id f m = elim (Option-cases (get m.builds id)) [
  | inl e ↦ rw (e, update) refl
  | inr (x, e) ↦ rw (e, update) refl
]

-- The other builds are left alone.
pub release-builds :
    (build : InFlightBuild) (key : String) (m : CancellationManager) (b : ℕ)
    → (build.build_id == b) ≡ false
    → get (release_context build key m).builds b ≡ get m.builds b
unfolding release_context
release-builds build key m b h = ground (
  arith,
  get-remove m.builds build.build_id b,
  get-put m.builds build.build_id b (record build { contexts = discard key build.contexts }),
  nat_eq.beq_iff build.build_id b,
)

pub update-builds :
    (id : ℕ) (f : InFlightBuild → InFlightBuild) (m : CancellationManager) (x : InFlightBuild)
    → get m.builds id ≡ some x
    → get (update id f m).builds id ≡ some (f x)
unfolding update
update-builds id f m x e = rw (e, update) (ground (arith, get-put m.builds id id (f x), ==_refl id))

pub update-none :
    (id : ℕ) (f : InFlightBuild → InFlightBuild) (m : CancellationManager)
    → get m.builds id ≡ none
    → update id f m ≡ m
unfolding update
update-none id f m e = rw (e, update) refl
