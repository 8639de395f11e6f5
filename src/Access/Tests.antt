-- ===== src/Access/Tests.antt =====
-- The theorems on access at a user and three projects.
use nixbot.Prelude.{
  ℕ, String, ◌≡◌, refl, true, false, not, ◌||◌, none, some, List, [], ◌∷◌, filter, elem, get, put,
  string_eq, nat_eq,
}
use nixbot.Prelude.Texts.{rpartition, has_char}
use nixbot.Access.{
  User, AuthzConfig, qualified, matches_rule, matches_parts, matches_group, is_admin, RepoRef,
  ProjectRow, VisibilityService, visible_repo_ids, ids, is_viewer, listed, with_access, first_rules,
  can_view_private, repo_access, fetch_access, cache_get, cache_set, prune, key,
}
use nixbot.Access.Rules.{matches_rule-qualified}
use nixbot.Access.Visible.{some_row, grants, visible_repo_ids_iff, visible_repo_ids-anonymous}

abbrev alice : User
alice = record {
  provider = "oidc:https://id";
  username = "alice";
  avatar_url = none;
  groups = "ops" ∷ [];
}

abbrev config : AuthzConfig
config = record {
  admins = "github:root" ∷ [];
  allow_unauthenticated_control = false;
  private_repo_viewers = ("gitea:o/*", "oidc:https://id:group:ops" ∷ []) ∷ [];
}

abbrev repo : String → String → RepoRef
repo forge id = record { forge = forge; forge_repo_id = id; owner = "o"; name = "r" }

abbrev rows : List ProjectRow
rows =
    record { id = 1; repo = repo "github" "10"; private = false }
    ∷ record { id = 2; repo = repo "gitea" "20"; private = true }
    ∷ record { id = 3; repo = repo "github" "30"; private = true }
    ∷ record { id = 4; repo = repo "gitlab" "40"; private = true }
    ∷ []

-- The forge grants the third project.
abbrev service : VisibilityService
service = record {
  authz = config;
  fetcher =
      some
        (λ user refs. some (record { accessible = "github:30" ∷ []; admin = []; writable = [] }));
  cache = record { ttl = 3600; entries = [] };
}

matches_rule-qualified_example : matches_rule alice (qualified alice) ≡ true
unfolding has_char
matches_rule-qualified_example = matches_rule-qualified alice refl

alice_sees : (visible_repo_ids 0 (some alice) rows service).0 ≡ some (1 ∷ 2 ∷ 3 ∷ [])
unfolding visible_repo_ids listed with_access is_admin can_view_private first_rules matches_rule
    matches_parts matches_group rpartition qualified repo_access fetch_access cache_get cache_set
    prune key elem get put
alice_sees = refl

visible_repo_ids_iff_example :
    elem {A = ℕ} 3 (1 ∷ 2 ∷ 3 ∷ [])
    ≡ some_row 3
        (λ row.
          not row.private
          || (is_viewer (some alice) config row
              || grants (repo_access 0 (some alice) rows service).0 row))
        rows
visible_repo_ids_iff_example =
    visible_repo_ids_iff 0 3 (some alice) rows service (1 ∷ 2 ∷ 3 ∷ []) alice_sees

visible_repo_ids-anonymous_example :
    (visible_repo_ids 0 none rows service).0 ≡ some (ids (filter (λ row. not row.private) rows))
visible_repo_ids-anonymous_example = visible_repo_ids-anonymous 0 rows service
