-- ===== src/Access.antt =====
-- auth.py and visibility.py: who may see, control and administer which project.
pub mod Rules
pub mod Visible
mod Tests
use nixbot.Prelude.{
  ℕ, ◌+◌, String, Bool, true, false, not, ◌&&◌, ◌||◌, Option, none, some, List, [], ◌∷◌, ◌++◌, map,
  filter, any, elem, Dict, get, put, remove, string_eq, nat_eq, ◌==◌, leb, if◌then◌else◌,
}
use nixbot.Prelude.Texts.{rpartition}
use Prim.Native.String.{◌++◌ as append}

pub record User : Type 0 where
  pub provider : String
  pub username : String
  pub avatar_url : Option String
  pub groups : List String

unfoldable pub qualified : User → String
qualified user = append user.provider (append ":" user.username)

pub record AuthzConfig : Type 0 where
  pub admins : List String
  pub allow_unauthenticated_control : Bool
  pub private_repo_viewers : Dict String (List String)

-- the number of `:`
abbrev pub colon : ℕ
colon = 58

-- `matches_rule` behind its two comparisons of the provider
unfoldable pub matches_group : User → Option (String × String) → String → Bool
matches_group user none rest = false
matches_group user (some (group_provider, group_marker)) rest =
    if group_marker == "group"
    then group_provider == user.provider && elem rest user.groups
    else false

unfoldable pub matches_parts : User → Option (String × String) → Bool
matches_parts user none = false
matches_parts user (some (provider, rest)) =
    if provider == user.provider
    then rest == "*" || rest == user.username
    else matches_group user (rpartition colon provider) rest

unfoldable pub matches_rule : User → String → Bool
matches_rule user rule = matches_parts user (rpartition colon rule)

-- the rules of the first of the keys that has any
unfoldable pub first_rules : Dict String (List String) → List String → List String
first_rules viewers [] = []
first_rules viewers (key ∷ keys) = elim (get viewers key) [
  | none ↦ first_rules viewers keys
  | some rules ↦ rules
]

unfoldable pub can_view_private :
    Option User → Dict String (List String) → String → String → String → Bool
can_view_private none viewers forge owner name = false
can_view_private (some user) viewers forge owner name =
    let repo = append forge (append ":" (append owner (append "/" name))) in
    let all_of_owner = append forge (append ":" (append owner "/*")) in
    any (matches_rule user) (first_rules viewers (repo ∷ all_of_owner ∷ "*" ∷ []))

unfoldable pub is_admin : Option User → AuthzConfig → Bool
is_admin none config = false
is_admin (some user) config = elem (qualified user) config.admins

abbrev pub is_author : User → Option String → Bool
is_author user none = false
is_author user (some author) = qualified user == author

unfoldable pub can_control_build : Option User → AuthzConfig → Option String → Bool
can_control_build none config build_pr_author = config.allow_unauthenticated_control
can_control_build (some user) config build_pr_author =
    if config.allow_unauthenticated_control
    then true
    else if is_admin (some user) config
    then true
    else is_author user build_pr_author

pub record RepoAccess : Type 0 where
  pub accessible : List String
  pub admin : List String
  pub writable : List String

pub record CacheEntry : Type 0 where
  pub access : RepoAccess
  pub expires : ℕ

-- The monotonic clock counts in whole units here, as `ttl` does.
pub record AccessCache : Type 0 where
  pub ttl : ℕ
  pub entries : Dict String CacheEntry

-- the deletion of the expired entries in `AccessCache.get`
unfoldable pub prune : ℕ → AccessCache → AccessCache
prune now cache = record cache { entries = filter (λ e. not (leb e.1.expires now)) cache.entries }

abbrev pub access_of : Option CacheEntry → Option RepoAccess
access_of none = none
access_of (some entry) = some entry.access

unfoldable pub cache_get : ℕ → String → AccessCache → Option RepoAccess × AccessCache
cache_get now user_key cache =
    let cache' = prune now cache in (access_of (get cache'.entries user_key), cache')

unfoldable pub cache_set : ℕ → String → RepoAccess → AccessCache → AccessCache
cache_set now user_key access cache = record cache {
  entries = put user_key (record { access = access; expires = now + cache.ttl }) cache.entries;
}

unfoldable pub invalidate_user : User → AccessCache → AccessCache
invalidate_user user cache = record cache { entries = remove (qualified user) cache.entries }

pub record RepoRef : Type 0 where
  pub forge : String
  pub forge_repo_id : String
  pub owner : String
  pub name : String

unfoldable pub key : RepoRef → String
key repo = append repo.forge (append ":" repo.forge_repo_id)

-- a row of the projects: its number, its repository and whether it is private
pub record ProjectRow : Type 0 where
  pub id : ℕ
  pub repo : RepoRef
  pub private : Bool

-- What the forge answers; `none` is a failed request.
abbrev pub RepoAccessFetcher : Type 0
RepoAccessFetcher = User → List RepoRef → Option RepoAccess

pub record VisibilityService : Type 0 where
  pub authz : AuthzConfig
  pub fetcher : Option RepoAccessFetcher
  pub cache : AccessCache

-- the request of `_repo_access` to the forge
unfoldable pub fetch_access :
    ℕ
    → User
    → RepoAccessFetcher
    → List ProjectRow
    → VisibilityService
    → Option RepoAccess × VisibilityService
fetch_access now user fetcher rows s = elim (fetcher user (map (λ row. row.repo) rows)) [
  | none ↦ (none, s)
  | some access ↦ (some access, record s { cache = cache_set now (qualified user) access s.cache })
]

-- `_repo_access`; the rows are what the database answers
unfoldable pub repo_access :
    ℕ → Option User → List ProjectRow → VisibilityService → Option RepoAccess × VisibilityService
repo_access now none rows s = (none, s)
repo_access now (some user) rows s = elim s.fetcher [
  | none ↦ (none, s)
  | some fetcher ↦
      let (cached, cache) = cache_get now (qualified user) s.cache in
      let s' = record s { cache = cache } in
      elim cached [ some access ↦ (some access, s') | none ↦ fetch_access now user fetcher rows s' ]
]

abbrev pub ids : List ProjectRow → List ℕ
ids rows = map (λ row. row.id) rows

abbrev pub is_viewer : Option User → AuthzConfig → ProjectRow → Bool
is_viewer user config row =
    can_view_private user config.private_repo_viewers row.repo.forge row.repo.owner row.repo.name

-- `visible` where the forge grants nothing: public projects, and private ones by viewer rules
unfoldable pub listed : Option User → AuthzConfig → List ProjectRow → List ℕ
listed user config rows =
    ids (filter (λ row. not row.private) rows)
    ++ ids (filter (λ row. row.private && is_viewer user config row) rows)

unfoldable pub with_access : Option RepoAccess → List ProjectRow → List ℕ → List ℕ
with_access none rows visible = visible
with_access (some access) rows visible =
    visible
    ++ ids (
        filter
          (λ row.
            row.private && (not (elem row.id visible) && elem (key row.repo) access.accessible))
          rows)

-- `none` means that everything is visible
unfoldable pub visible_repo_ids :
    ℕ → Option User → List ProjectRow → VisibilityService → Option (List ℕ) × VisibilityService
visible_repo_ids now user rows s =
    if is_admin user s.authz
    then (none, s)
    else let (access, s') = repo_access now user rows s in
      (some (with_access access rows (listed user s.authz rows)), s')

unfoldable pub granted_ids :
    Option RepoAccess → (RepoAccess → List String) → List ProjectRow → List ℕ
granted_ids none select rows = []
granted_ids (some access) select rows =
    ids (filter (λ row. elem (key row.repo) (select access)) rows)

unfoldable pub repo_ids_for :
    ℕ
    → Option User
    → (RepoAccess → List String)
    → List ProjectRow
    → VisibilityService
    → Option (List ℕ) × VisibilityService
repo_ids_for now user select rows s =
    if is_admin user s.authz
    then (none, s)
    else let (access, s') = repo_access now user rows s in
      (some (granted_ids access select rows), s')

unfoldable pub toggleable_repo_ids :
    ℕ → Option User → List ProjectRow → VisibilityService → Option (List ℕ) × VisibilityService
toggleable_repo_ids now user rows s = repo_ids_for now user (λ a. a.admin) rows s

unfoldable pub controllable_repo_ids :
    ℕ → Option User → List ProjectRow → VisibilityService → Option (List ℕ) × VisibilityService
controllable_repo_ids now user rows s = repo_ids_for now user (λ a. a.writable) rows s
