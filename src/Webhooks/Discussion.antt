-- ===== src/Webhooks/Discussion.antt =====
-- webhooks.py: refs, commands, actors and pull requests, as a payload has them.
use nixbot.Prelude.{
  ℕ, Bool, true, false, not, ◌&&◌, ◌||◌, Option, none, some, String, Result, ok, ◌>>=◌,
  if◌then◌else◌, ◌==◌, string_eq, nat_eq, leb,
}
use nixbot.Prelude.Json.{Json, Fields, null, str, truthy}
use nixbot.Prelude.Prefixes.{strip_prefix, span, strip, split_char}
use nixbot.Webhooks.Values.{
  Exception, Python, get_or, or_empty, lookup_or, lookup, is_str, is_null, as_str, is_zeros,
}
use nixbot.Webhooks.Events.{WebhookEvent, change_request, pr_closed, pr_comment, pr_labeled}
use Prim.Native.String.{◌++◌}

-- (branch, tag) of a pushed ref
unfoldable pub pushed_ref : String → Option (String × Option String)
pushed_ref ref = elim (strip_prefix "refs/heads/" ref) [
  | some branch ↦ some (branch, none)
  | none ↦ elim (strip_prefix "refs/tags/" ref) [ some tag ↦ some (tag, some tag) | none ↦ none ]
]

-- `value or next`, where `next` is evaluated only if the value is falsy
abbrev pub or_else : Json → Result Exception Json → Result Exception Json
or_else v next = if truthy v then ok v else next

unfoldable pub is_zero_sha : Json → Result Exception Bool
is_zero_sha head = if truthy head then is_zeros head else ok true

-- The characters of a command's name, by code: a to z, 0 to 9, _ and -.
abbrev pub is_command_char : ℕ → Bool
is_command_char c = (leb 97 c && leb c 122) || (leb 48 c && leb c 57) || c == 95 || c == 45

abbrev pub is_blank : ℕ → Bool
is_blank c = c == 32 || c == 9

-- What stands behind the name of a command, without the blanks before it.
unfoldable pub command_args : String → Option String
command_args rest =
    let (blanks, args) = span is_blank rest in
    if rest == "" then some "" else if blanks == "" then none else some args

-- `_COMMAND_RE`: the name is the longest run of its characters, since a blank is none of them.
unfoldable pub match_command : String → Option (String × String)
match_command line = elim (strip_prefix "/" line) [
  | none ↦ none
  | some text ↦
      let (name, rest) = span is_command_char text in
      if name == ""
      then none
      else elim (command_args rest) [ none ↦ none | some args ↦ some (name, args) ]
]

-- `value or ""`
abbrev pub or_text : Json → Json
or_text v = if truthy v then v else str ""

-- On GitHub an issue that is no pull request is skipped.
unfoldable pub not_pull : String → Json → Result Exception Bool
not_pull forge issue =
    if forge == "github"
    then lookup "pull_request" issue >>= (λ pull. ok (not (truthy pull)))
    else ok false

module _ (py : Python) where
  unfoldable pub actor_login : Fields → Result Exception Json
  actor_login payload = do
    login ← lookup "login" (or_empty (get_or null "sender" payload))
    or_else login (do
      username ← lookup "username" (or_empty (get_or null "user" payload))
      ok (if truthy username then username else get_or null "user_username" payload))

  unfoldable pub actor_of : String → Fields → Result Exception (Option String)
  actor_of forge payload = do
    login ← actor_login payload
    ok (if truthy login then some (forge ++ (":" ++ py.text_of login)) else none)

  -- `_pr_comment`; the command needs a number and an actor as well.
  unfoldable pub comment_of :
      String → String → Json → Option String → Json → Result Exception (Option WebhookEvent)
  comment_of forge repo_id pr_number actor body = do
    text ← as_str body
    ok (elim (match_command (strip py.is_space (split_char 10 text))) [
      | none ↦ none
      | some (command, args) ↦ if is_null pr_number then none else elim actor [
        | none ↦ none
        | some who ↦ some (
            pr_comment (record {
              forge = forge;
              forge_repo_id = repo_id;
              pr_number = pr_number;
              actor = who;
              command = command;
              args = strip py.is_space args;
            }))
      ]
    ])

  unfoldable pub parse_issue_comment :
      String → String → Fields → Result Exception (Option WebhookEvent)
  parse_issue_comment forge repo_id payload = do
    let issue = or_empty (get_or null "issue" payload)
    let comment = or_empty (get_or null "comment" payload)
    if not (is_str "created" (get_or null "action" payload)) then ok none else do
      skipped ← not_pull forge issue
      if skipped then ok none else do
        user ← lookup "user" comment
        type ← lookup "type" (or_empty user)
        if is_str "Bot" type then ok none else do
          state ← lookup "state" issue
          if not (is_str "open" state) then ok none else do
            number ← lookup "number" issue
            actor ← actor_of forge payload
            body ← lookup "body" comment
            comment_of forge repo_id number actor (or_text body)

  -- `_pr_action_builds`
  unfoldable pub action_builds : Json → Fields → String → Result Exception Bool
  action_builds action payload sync_action =
      if is_str "edited" action
      then (do
        let changes = or_empty (get_or null "changes" payload)
        base ← lookup "base" changes
        if truthy base then ok true else do ref ← lookup "ref" changes; ok (truthy ref))
      else ok (is_str "opened" action || is_str sync_action action || is_str "reopened" action)

  -- the request of a pull request that builds
  unfoldable pub pr_change : String → String → Fields → Json → Json → Result Exception WebhookEvent
  pr_change forge repo_id payload pr number = do
    base ← lookup "base" pr
    base_ref ← lookup_or (str "") "ref" (or_empty base)
    head ← lookup "head" pr
    head_repo ← lookup "repo" (or_empty head)
    head_repo_id ← lookup "id" (or_empty head_repo)
    sha ← lookup_or (str "") "sha" (or_empty head)
    user ← lookup "user" pr
    login ← lookup_or (str "") "login" (or_empty user)
    base_sha ← lookup "sha" (or_empty base)
    actor ← actor_of forge payload
    author_association ← lookup "author_association" pr
    head_ref ← lookup "ref" (or_empty head)
    ok (
        change_request (record {
          forge = forge;
          forge_repo_id = repo_id;
          branch = base_ref;
          commit_sha = sha;
          commit_message = str "";
          pr_number = number;
          pr_author = some (forge ++ (":" ++ py.text_of login));
          base_sha =
              if truthy base_ref then str ("refs/heads/" ++ py.text_of base_ref) else base_sha;
          actor = actor;
          author_association = author_association;
          head_in_base_repo = not (is_null head_repo_id) && py.text_of head_repo_id == repo_id;
          head_ref = head_ref;
          tag = none;
        }))

  abbrev pub is_label_action : Json → Bool
  is_label_action action =
      is_str "labeled" action
      || is_str "unlabeled" action
      || is_str "label_updated" action
      || is_str "label_cleared" action

  unfoldable pub parse_pr_event :
      String → String → Fields → String → Result Exception (Option WebhookEvent)
  parse_pr_event forge repo_id payload sync_action = do
    let pr = or_empty (get_or null "pull_request" payload)
    number ← lookup "number" pr
    if is_null number then ok none else do
      let action = get_or (str "") "action" payload
      if is_str "closed" action
          then (do
            merged ← lookup "merged" pr
            actor ← actor_of forge payload
            ok (
                some (
                  pr_closed (record {
                    forge = forge;
                    forge_repo_id = repo_id;
                    pr_number = number;
                    merged = truthy merged;
                    actor = actor;
                  }))))
          else if is_label_action action
          then (do
            state ← lookup "state" pr
            if not (is_str "open" state) then ok none else do
              actor ← actor_of forge payload
              ok (
                  some (
                    pr_labeled (record {
                      forge = forge;
                      forge_repo_id = repo_id;
                      pr_number = number;
                      actor = actor;
                    }))))
          else do
            builds ← action_builds action payload sync_action
            if not builds
                then ok none
                else do change ← pr_change forge repo_id payload pr number; ok (some change)
