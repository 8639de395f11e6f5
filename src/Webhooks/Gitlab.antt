-- ===== src/Webhooks/Gitlab.antt =====
-- webhooks.py: the parsers of GitLab's payloads.
use nixbot.Prelude.{
  Bool, false, not, ◌&&◌, ◌||◌, Option, none, some, String, Result, ok, ◌>>=◌, if◌then◌else◌, ◌==◌,
  string_eq,
}
use nixbot.Prelude.Json.{Json, Fields, null, str, truthy}
use nixbot.Webhooks.Values.{
  Exception, Python, get_or, or_empty, lookup_or, lookup, is_str, is_null, contains,
}
use nixbot.Webhooks.Events.{WebhookEvent, change_request, pr_closed, pr_labeled}
use nixbot.Webhooks.Parsing.{repo_id_of, parse_push}
use nixbot.Webhooks.Discussion.{actor_of, comment_of, or_text}
use Prim.Native.String.{◌++◌}

-- who an event names, where the name is not empty
abbrev pub gitlab_user : Python → Json → Option String
gitlab_user py actor = if truthy actor then some ("gitlab:" ++ py.text_of actor) else none

module _ (py : Python) where
  unfoldable pub parse_gitlab_note : String → Fields → Result Exception (Option WebhookEvent)
  parse_gitlab_note repo_id payload = do
    let attrs = or_empty (get_or null "object_attributes" payload)
    let mr = or_empty (get_or null "merge_request" payload)
    noteable_type ← lookup "noteable_type" attrs
    if not (is_str "MergeRequest" noteable_type) then ok none else do
      action ← lookup_or (str "create") "action" attrs
      if not (is_str "create" action) then ok none else do
        system ← lookup "system" attrs
        if truthy system then ok none else do
          state ← lookup "state" mr
          if not (is_str "opened" state) then ok none else do
            iid ← lookup "iid" mr
            actor ← actor_of py "gitlab" payload
            note ← lookup "note" attrs
            comment_of py "gitlab" repo_id iid actor (or_text note)

  abbrev is_one_of : String → String → Json → Bool
  is_one_of a b action = is_str a action || is_str b action

  -- the request of an update that moves the head, or of an opened merge request
  unfoldable pub mr_change :
      String → Fields → Json → Json → Json → Result Exception (Option WebhookEvent)
  mr_change repo_id payload attrs number action = do
    target_branch ← lookup_or (str "") "target_branch" attrs
    actor ← lookup_or (str "") "username" (or_empty (get_or null "user" payload))
    last_commit ← lookup "last_commit" attrs
    commit_sha ← lookup_or (str "") "id" (or_empty last_commit)
    ok (
        some (
          change_request (record {
            forge = "gitlab";
            forge_repo_id = repo_id;
            branch = target_branch;
            commit_sha = commit_sha;
            commit_message = str "";
            pr_number = number;
            pr_author = if is_one_of "open" "update" action then gitlab_user py actor else none;
            base_sha =
                if truthy target_branch
                then str ("refs/heads/" ++ py.text_of target_branch)
                else null;
            actor = gitlab_user py actor;
            author_association = null;
            head_in_base_repo = false;
            head_ref = null;
            tag = none;
          })))

  unfoldable pub parse_gitlab_mr : String → Fields → Result Exception (Option WebhookEvent)
  parse_gitlab_mr repo_id payload = do
    let attrs = or_empty (get_or null "object_attributes" payload)
    number ← lookup "iid" attrs
    if is_null number then ok none else do
      action ← lookup_or (str "") "action" attrs
      if is_one_of "close" "merge" action
          then (do
            actor ← actor_of py "gitlab" payload
            ok (
                some (
                  pr_closed (record {
                    forge = "gitlab";
                    forge_repo_id = repo_id;
                    pr_number = number;
                    merged = is_str "merge" action;
                    actor = actor;
                  }))))
          else if not (is_one_of "open" "update" action || is_str "reopen" action)
          then ok none
          else do
            oldrev ← lookup "oldrev" attrs
            if not (is_str "update" action && not (truthy oldrev))
                then mr_change repo_id payload attrs number action
                else do
                  labels ← contains "labels" (or_empty (get_or null "changes" payload))
                  if not labels then ok none else do
                    actor ← actor_of py "gitlab" payload
                    ok (
                        some (
                          pr_labeled (record {
                            forge = "gitlab";
                            forge_repo_id = repo_id;
                            pr_number = number;
                            actor = actor;
                          })))

  unfoldable pub parse_gitlab_event : String → Fields → Result Exception (Option WebhookEvent)
  parse_gitlab_event event_type payload = do
    repo_id ← repo_id_of py "project" payload
    if repo_id == ""
        then ok none
        else if event_type == "Push Hook" || event_type == "Tag Push Hook"
        then parse_push py "gitlab" false repo_id payload
        else if event_type == "Note Hook"
        then parse_gitlab_note repo_id payload
        else if event_type == "Merge Request Hook"
        then parse_gitlab_mr repo_id payload
        else ok none
