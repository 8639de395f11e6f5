-- ===== src/Access/Visible.antt =====
-- visibility.py: which projects a requester sees.
use nixbot.Prelude.{
  ℕ, ◌≡◌, refl, ap, sym, ◌∙◌, inl, inr, Bool, false, not, ◌&&◌, ◌||◌, Option, none, some, List, [],
  ◌∷◌, filter, any, arith, elem, elem-append, string_eq, nat_eq, ◌==◌, Bool-cases,
}
use mathlib.Core.List.{append-nil}
use nixbot.Access.{
  User, AuthzConfig, RepoAccess, key, ProjectRow, VisibilityService, repo_access, ids, is_viewer,
  listed, with_access, visible_repo_ids, is_admin, can_view_private,
}

-- Whether a row of that number passes the test.
abbrev pub some_row : ℕ → (ProjectRow → Bool) → List ProjectRow → Bool
some_row i p rows = any (λ row. row.id == i && p row) rows

elem-ids :
    (i : ℕ) (p : ProjectRow → Bool) (rows : List ProjectRow)
    → elem i (ids (filter p rows)) ≡ some_row i p rows
unfolding elem
elem-ids i p [] = refl
elem-ids i p (row ∷ rows) = ground (arith, elem-ids i p rows)

abbrev pub grants : Option RepoAccess → ProjectRow → Bool
grants none row = false
grants (some access) row = elem (key row.repo) access.accessible

any-or :
    (i : ℕ) (p q : ProjectRow → Bool) (rows : List ProjectRow)
    → (some_row i p rows || some_row i q rows) ≡ some_row i (λ row. p row || q row) rows
any-or i p q [] = refl
any-or i p q (row ∷ rows) = ground (arith, any-or i p q rows)

some_row-same :
    (i : ℕ) (p q : ProjectRow → Bool) (rows : List ProjectRow)
    → ((row : ProjectRow) → p row ≡ q row)
    → some_row i p rows ≡ some_row i q rows
some_row-same i p q [] h = refl
some_row-same i p q (row ∷ rows) h = ground (arith, h row, some_row-same i p q rows h)

-- Rows whose number is listed already add nothing to the list.
some_row-unseen :
    (i : ℕ) (visible : List ℕ) (p q : ProjectRow → Bool) (rows : List ProjectRow)
    → (elem i visible || some_row i (λ row. p row && (not (elem row.id visible) && q row)) rows)
      ≡ (elem i visible || some_row i (λ row. p row && q row) rows)
some_row-unseen i visible p q [] = refl
some_row-unseen i visible p q (row ∷ rows) =
    ground (arith, nat_eq.beq_iff row.id i, some_row-unseen i visible p q rows)

elem-listed :
    (i : ℕ) (user : Option User) (config : AuthzConfig) (rows : List ProjectRow)
    → elem i (listed user config rows)
      ≡ some_row i (λ row. not row.private || row.private && is_viewer user config row) rows
unfolding listed
elem-listed i user config rows =
    elem-append i (ids (filter (λ row. not row.private) rows)) _
    ∙ ground (
      arith,
      elem-ids i (λ row. not row.private) rows,
      elem-ids i (λ row. row.private && is_viewer user config row) rows,
      any-or i (λ row. not row.private) (λ row. row.private && is_viewer user config row) rows,
    )

none_listed : (i : ℕ) (rows : List ProjectRow) → some_row i (λ row. false) rows ≡ false
none_listed i [] = refl
none_listed i (row ∷ rows) = ground (arith, none_listed i rows)

elem-with_access :
    (i : ℕ) (access : Option RepoAccess) (rows : List ProjectRow) (visible : List ℕ)
    → elem i (with_access access rows visible)
      ≡ (elem i visible || some_row i (λ row. row.private && grants access row) rows)
unfolding with_access
elem-with_access i none rows visible = ground (
  arith,
  some_row-same i (λ row. row.private && false) (λ row. false) rows (λ row. ground arith),
  none_listed i rows,
)
elem-with_access i (some access) rows visible =
    elem-append i visible _
    ∙ ground (
      arith,
      elem-ids i
          (λ row.
            row.private && (not (elem row.id visible) && elem (key row.repo) access.accessible))
          rows,
      some_row-unseen i visible (λ row. row.private) (λ row. elem (key row.repo) access.accessible)
          rows,
    )

inner : {a b : List ℕ} → ◌≡◌ {A = Option (List ℕ)} (some a) (some b) → a ≡ b
inner h = cc

filter_none :
    (p : ProjectRow → Bool) (rows : List ProjectRow) → filter (λ row. p row && false) rows ≡ []
filter_none p [] = refl
filter_none p (row ∷ rows) = ground (arith, filter_none p rows)

-- A requester who is no administrator sees exactly the projects that are public, that a viewer rule
-- opens to the requester, or that the forge grants.
pub visible_repo_ids_iff :
    (now i : ℕ) (user : Option User) (rows : List ProjectRow) (s : VisibilityService) (l : List ℕ)
    → (visible_repo_ids now user rows s).0 ≡ some l
    → elem i l
      ≡ some_row i
          (λ row.
            not row.private
            || (is_viewer user s.authz row || grants (repo_access now user rows s).0 row))
          rows
unfolding visible_repo_ids
visible_repo_ids_iff now i user rows s l h = elim (Bool-cases (is_admin user s.authz)) [
  | inl a ↦ cc (rw a at h)
  | inr a ↦
      let access = (repo_access now user rows s).0 in
      ap (elem i) (sym (inner (rw a at h)))
      ∙ elem-with_access i access rows (listed user s.authz rows)
      ∙ ap (λ b. b || some_row i (λ row. row.private && grants access row) rows)
          (elem-listed i user s.authz rows)
      ∙ any-or i (λ row. not row.private || row.private && is_viewer user s.authz row)
          (λ row. row.private && grants access row) rows
      ∙ some_row-same i _ _ rows (λ row. ground arith)
]

-- Whoever is not logged in sees the public projects and no other.
pub visible_repo_ids-anonymous :
    (now : ℕ) (rows : List ProjectRow) (s : VisibilityService)
    → (visible_repo_ids now none rows s).0 ≡ some (ids (filter (λ row. not row.private) rows))
unfolding visible_repo_ids is_admin repo_access with_access listed can_view_private
visible_repo_ids-anonymous now rows s =
    rw (filter_none (λ row. row.private) rows)
      (ap some (append-nil (ids (filter (λ row. not row.private) rows))))
