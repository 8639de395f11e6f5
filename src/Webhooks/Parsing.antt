-- ===== src/Webhooks/Parsing.antt =====
-- webhooks.py: the parsers of GitHub's and Gitea's payloads.
use nixbot.Prelude.{
  ℕ, Bool, true, false, not, ◌&&◌, ◌||◌, Option, none, some, String, Result, ok, ◌>>=◌,
  if◌then◌else◌, ◌==◌, string_eq, nat_eq,
}
use nixbot.Prelude.Json.{Json, Items, Fields, null, str, arr, obj, nil, cons, end, truthy}
use nixbot.Prelude.Prefixes.{strip_prefix, all_chars}
use nixbot.Webhooks.Values.{
  Exception, Python, get_or, or_empty, lookup_or, lookup, is_str, as_str, iterate, json_beq, digits,
}
use nixbot.Webhooks.Events.{WebhookEvent, change_request, check_rerequested, pr_approved}
use nixbot.Webhooks.Discussion.{
  pushed_ref, or_else, is_zero_sha, or_text, actor_of, parse_issue_comment, parse_pr_event,
}

module _ (py : Python) where
  -- the commit of a GitHub push, unless it deletes the ref
  unfoldable pub pushed_change :
      String
      → String
      → Fields
      → String × Option String
      → Json
      → Json
      → Result Exception (Option WebhookEvent)
  pushed_change forge repo_id payload (branch, tag) head head_commit = do
    message ← lookup_or (str "") "message" head_commit
    actor ← actor_of py forge payload
    ok (
        some (
          change_request (record {
            forge = forge;
            forge_repo_id = repo_id;
            branch = str branch;
            commit_sha = head;
            commit_message = message;
            pr_number = null;
            pr_author = none;
            base_sha = null;
            actor = actor;
            author_association = null;
            head_in_base_repo = false;
            head_ref = null;
            tag = tag;
          })))

  unfoldable pub parse_github_push : String → Fields → Result Exception (Option WebhookEvent)
  parse_github_push repo_id payload = do
    ref ← as_str (get_or (str "") "ref" payload)
    elim (pushed_ref ref) [
      | none ↦ ok none
      | some pushed ↦ if truthy (get_or null "deleted" payload) then ok none else do
        let head = get_or (str "") "after" payload
        zero_sha ← is_zero_sha head
        if zero_sha
            then ok none
            else pushed_change "github" repo_id payload pushed head
                (or_empty (get_or null "head_commit" payload))
    ]

  unfoldable pub external_id : Json → Result Exception String
  external_id run = do external ← lookup "external_id" run; as_str (or_text external)

  -- `text.isdigit()`
  abbrev pub is_digits : String → Bool
  is_digits text = not (text == "") && all_chars py.is_digit text

  unfoldable pub parse_approval : String → Fields → Json → Result Exception (Option WebhookEvent)
  parse_approval repo_id payload run = do
    requested ← lookup "identifier" (or_empty (get_or null "requested_action" payload))
    external ← external_id run
    elim (strip_prefix "approve-pr-" external) [
      | none ↦ ok none
      | some number ↦
          if not (is_str "approve" requested) || not (is_digits number) then ok none else do
            pr_number ← digits py number
            actor ← actor_of py "github" payload
            ok (
                some (
                  pr_approved (record {
                    forge = "github";
                    forge_repo_id = repo_id;
                    pr_number = pr_number;
                    actor = actor;
                  })))
    ]

  unfoldable pub build_id_of : String → Result Exception (Option ℕ)
  build_id_of external =
      if is_digits external then digits py external >>= (λ n. ok (some n)) else ok none

  -- `_parse_github_check_event`
  unfoldable pub parse_check_event :
      String → String → Fields → Result Exception (Option WebhookEvent)
  parse_check_event event_type repo_id payload = do
    let action = get_or null "action" payload
    let run = or_empty (get_or null event_type payload)
    if event_type == "check_run" && is_str "requested_action" action
        then parse_approval repo_id payload run
        else if not (is_str "rerequested" action)
        then ok none
        else if event_type == "check_suite"
        then (do
          head_sha ← lookup_or (str "") "head_sha" run
          ok (
              some (
                check_rerequested (record {
                  forge = "github";
                  forge_repo_id = repo_id;
                  head_sha = head_sha;
                  build_id = none;
                  name = null;
                }))))
        else do
          external ← external_id run
          head_sha ← lookup_or (str "") "head_sha" run
          build_id ← build_id_of external
          name ← lookup "name" run
          ok (
              some (
                check_rerequested (record {
                  forge = "github";
                  forge_repo_id = repo_id;
                  head_sha = head_sha;
                  build_id = build_id;
                  name = name;
                })))

  -- `str((payload.get(key) or {}).get("id", ""))`
  unfoldable pub repo_id_of : String → Fields → Result Exception String
  repo_id_of key payload = do
    id ← lookup_or (str "") "id" (or_empty (get_or null key payload))
    ok (py.text_of id)

  unfoldable pub parse_github_event : String → Fields → Result Exception (Option WebhookEvent)
  parse_github_event event_type payload = do
    repo_id ← repo_id_of "repository" payload
    if repo_id == ""
        then ok none
        else if event_type == "push"
        then parse_github_push repo_id payload
        else if event_type == "pull_request"
        then parse_pr_event py "github" repo_id payload "synchronize"
        else if event_type == "issue_comment"
        then parse_issue_comment py "github" repo_id payload
        else if event_type == "check_run" || event_type == "check_suite"
        then parse_check_event event_type repo_id payload
        else ok none

  -- the commit of a push whose id is the pushed head
  unfoldable pub find_commit : Json → Items → Result Exception Json
  find_commit head nil = ok (obj end)
  find_commit head (cons commit commits) =
      let rest = find_commit head commits in
      do id ← lookup "id" (or_empty commit); if json_beq id head then ok commit else rest

  unfoldable pub commit_of : Fields → Json → Result Exception Json
  commit_of payload head = do
    let commits = get_or null "commits" payload
    items ← iterate (if truthy commits then commits else arr nil)
    find_commit head items

  -- The head commit of a push to Gitea, or the commit of that id; for GitLab only the latter.
  unfoldable pub parse_push :
      String → Bool → String → Fields → Result Exception (Option WebhookEvent)
  parse_push forge has_head_commit repo_id payload = do
    ref ← as_str (get_or (str "") "ref" payload)
    elim (pushed_ref ref) [
      | none ↦ ok none
      | some pushed ↦ do
        let head = get_or (str "") "after" payload
        zero_sha ← is_zero_sha head
        if zero_sha then ok none else do
          let head_commit = if has_head_commit then get_or null "head_commit" payload else null
          commit ← or_else head_commit (commit_of payload head)
          pushed_change forge repo_id payload pushed head commit
    ]

  unfoldable pub parse_gitea_event : String → Fields → Result Exception (Option WebhookEvent)
  parse_gitea_event event_type payload = do
    repo_id ← repo_id_of "repository" payload
    if repo_id == ""
        then ok none
        else if event_type == "push"
        then parse_push "gitea" true repo_id payload
        else if event_type == "pull_request"
            || event_type == "pull_request_sync"
            || event_type == "pull_request_label"
        then parse_pr_event py "gitea" repo_id payload "synchronized"
        else if event_type == "issue_comment" && truthy (get_or null "is_pull" payload)
        then parse_issue_comment py "gitea" repo_id payload
        else ok none
