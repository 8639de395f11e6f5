-- ===== src/Webhooks/Tests.antt =====
-- webhooks.py: a push to a repository, the delivery that brings it, and the set of deliveries.
use nixbot.Prelude.{
  Bytes, ◌≤◌, ◌≡◌, refl, inl, true, false, Option, none, some, [], ◌∷◌, String, Result, ok, err,
  length, arith, elem, if◌then◌else◌, ◌==◌, string_eq,
}
use nixbot.Prelude.Json.{Json, Fields, null, num, str, obj, end, field, truthy, get_field}
use nixbot.Prelude.Prefixes.{strip_prefix}
use nixbot.Webhooks.Values.{Python, is_zeros, lookup_or, as_str, iterate, all_items, chars}
use nixbot.Webhooks.Events.{ChangeRequest, WebhookEvent, change_request}
use nixbot.Webhooks.Parsing.{
  parse_github_event, repo_id_of, parse_github_push, pushed_change, parse_gitea_event, parse_push,
  commit_of, find_commit,
}
use nixbot.Webhooks.Discussion.{pushed_ref, is_zero_sha, actor_of, actor_login}
use nixbot.Webhooks.Deliveries.{DeliveryDeduper, is_duplicate}
use nixbot.Webhooks.Handlers.{
  declared_too_large, read_chunks, verify_github_signature, verify_gitea_signature,
  handle_authentic, submit, dispatch_event, Failure, http, Services, Request, header_of,
  max_body_size, read_body, read_delivery, parse_webhook_body, handle_github, deliver,
  dispatch_parsed, gitea_forge, handle_token_forge,
}
use nixbot.Webhooks.Pushes.{IsPushOf, parse_push-IsPushOf}
use nixbot.Webhooks.Authentic.{handle_github-authentic, handle_token_forge-authentic}
use nixbot.Webhooks.Deduplication.{deliver_all, deliver-duplicate, deliver-retry}
use Prim.Native.String.{◌++◌ as append}

abbrev text_of : Json → String
text_of (str s) = s
text_of (num n) = "42"
text_of _ = "None"

abbrev py : Python
py = record { text_of = text_of; is_digit = λ _. false; decimal = λ _. none; is_space = λ _. false }

abbrev push : Fields
push =
    field "repository" (obj (field "id" (num 42) end))
      (field "ref" (str "refs/heads/main") (field "after" (str "c0ffee") end))

abbrev change : ChangeRequest
change = record {
  forge = "github";
  forge_repo_id = "42";
  branch = str "main";
  commit_sha = str "c0ffee";
  commit_message = str "";
  pr_number = null;
  pr_author = none;
  base_sha = null;
  actor = none;
  author_association = null;
  head_in_base_repo = false;
  head_ref = null;
  tag = none;
}

push_parsed : parse_github_event py "push" push ≡ ok (some (change_request change))
unfolding parse_github_event repo_id_of lookup_or truthy get_field parse_github_push as_str
    pushed_ref strip_prefix is_zero_sha is_zeros iterate all_items chars pushed_change actor_of
    actor_login
push_parsed = refl

parse_push-IsPushOf_example : IsPushOf push (change_request change)
parse_push-IsPushOf_example = parse_push-IsPushOf py push (change_request change) (inl push_parsed)

abbrev services : Services
services = record {
  hmac_hex = λ secret body. "abc";
  decode = λ form body. some (obj push);
  submit_ok = λ event. true;
}

abbrev broken : Services
broken = record {
  hmac_hex = λ secret body. "abc";
  decode = λ form body. some (obj push);
  submit_ok = λ event. false;
}

abbrev header : String → Option String
header name =
    if name == "X-Hub-Signature-256"
    then some "sha256=abc"
    else if name == "X-Gitea-Signature"
    then some "abc"
    else if name == "X-GitHub-Event"
    then some "push"
    else if name == "X-Gitea-Event"
    then some "push"
    else none

abbrev request : Request
request = record { header = header; stream = (123 ∷ 125 ∷ []) ∷ [] }

abbrev no_deliveries : DeliveryDeduper
no_deliveries = record { limit = 3; seen = [] }

github_submitted :
    (handle_github py services (some "key") request no_deliveries).submitted
    ≡ change_request change ∷ []
unfolding handle_github read_body declared_too_large read_chunks verify_github_signature
    parse_webhook_body deliver is_duplicate dispatch_event submit elem parse_github_event repo_id_of
    lookup_or truthy get_field parse_github_push as_str pushed_ref strip_prefix is_zero_sha is_zeros
    iterate all_items chars pushed_change actor_of actor_login
github_submitted = refl

handle_github-authentic_example :
    (secret : String) × (body : Bytes) × (payload : Fields) × (some "key" ≡ some secret)
    × (read_body py services request ≡ ok body)
    × (length body ≤ max_body_size)
    × (header_of "X-Hub-Signature-256" request ≡ append "sha256=" (services.hmac_hex secret body))
    × (parse_webhook_body py services request body ≡ ok payload)
    × (parse_github_event py (header_of "X-GitHub-Event" request) payload
        ≡ ok (some (change_request change)))
handle_github-authentic_example =
    handle_github-authentic py services (some "key") request (change_request change) no_deliveries
      github_submitted

abbrev store : String → Option (Option String)
store repo_id = some (some "key")

abbrev gitea_change : ChangeRequest
gitea_change = record change { forge = "gitea" }

gitea_submitted :
    (handle_token_forge py services
      (gitea_forge py services)
      (some store)
      request
      no_deliveries).submitted
    ≡ change_request gitea_change ∷ []
unfolding handle_token_forge handle_authentic read_delivery verify_gitea_signature read_body
    declared_too_large read_chunks verify_github_signature parse_webhook_body deliver is_duplicate
    dispatch_event submit elem parse_gitea_event parse_push commit_of find_commit repo_id_of
    lookup_or truthy get_field parse_github_push as_str pushed_ref strip_prefix is_zero_sha is_zeros
    iterate all_items chars pushed_change actor_of actor_login
gitea_submitted = refl

handle_token_forge-authentic_example :
    (secrets : String → Option (Option String)) × (body : Bytes) × (payload : Fields)
    × (repo_id : String) × (secret : String) × (some store ≡ some secrets)
    × (read_delivery py services (gitea_forge py services) request ≡ ok (body, payload, repo_id))
    × (secrets repo_id ≡ some (some secret))
    × ((gitea_forge py services).verify secret body
          (header_of (gitea_forge py services).auth_header request)
        ≡ true)
    × ((gitea_forge py services).parse
          (header_of (gitea_forge py services).event_header request)
          payload
        ≡ ok (some (change_request gitea_change)))
handle_token_forge-authentic_example =
    handle_token_forge-authentic py services (gitea_forge py services) (some store) request
      (change_request gitea_change) no_deliveries gitea_submitted

abbrev parsed : Result Failure (Option WebhookEvent)
parsed = ok (some (change_request change))

a_answered :
    (deliver py services "a" parsed no_deliveries).outcome
    ≡ ok (record { status = 202; content = "accepted" })
unfolding deliver is_duplicate dispatch_event submit elem
a_answered = refl

deliver-duplicate_example :
    ((deliver py services "a" parsed (
        deliver_all py services
          (("b", parsed) ∷ [])
          (deliver py services "a" parsed no_deliveries).deduper)).submitted
      ≡ [])
    × ((deliver py services "a" parsed (
          deliver_all py services
            (("b", parsed) ∷ [])
            (deliver py services "a" parsed no_deliveries).deduper)).outcome
        ≡ ok (record { status = 202; content = "duplicate delivery" }))
deliver-duplicate_example =
    deliver-duplicate py services "a" parsed parsed (record { status = 202; content = "accepted" })
      no_deliveries (("b", parsed) ∷ []) refl (omega arith) a_answered refl (omega arith)

a_failed :
    (deliver py broken "a" parsed no_deliveries).outcome ≡ err (http 500 "temporarily unavailable")
unfolding deliver is_duplicate dispatch_event submit elem
a_failed = refl

deliver-retry_example :
    deliver py broken "a" parsed (deliver py broken "a" parsed no_deliveries).deduper
    ≡ dispatch_parsed py broken "a" parsed (deliver py broken "a" parsed no_deliveries).deduper
deliver-retry_example =
    deliver-retry py broken "a" parsed parsed (http 500 "temporarily unavailable") no_deliveries
      refl a_failed
