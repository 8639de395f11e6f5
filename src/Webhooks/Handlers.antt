-- ===== src/Webhooks/Handlers.antt =====
-- webhooks.py: `_WebhookHandlers`, from a request to the answer and the submitted event.
use nixbot.Prelude.{
  Bytes, ℕ, ◌*◌, Bool, true, false, not, Option, none, some, List, [], ◌∷◌, ◌++◌, String, Result,
  ok, err, ◌>>=◌, if◌then◌else◌, ◌==◌, string_eq, ltb, length,
}
use nixbot.Prelude.Json.{Json, Fields, obj}
use nixbot.Prelude.Prefixes.{strip_prefix}
use nixbot.Webhooks.Values.{Exception, Python, digits}
use nixbot.Webhooks.Events.{WebhookEvent}
use nixbot.Webhooks.Parsing.{parse_github_event, parse_gitea_event, repo_id_of, is_digits}
use nixbot.Webhooks.Gitlab.{parse_gitlab_event}
use Prim.Native.String.{◌++◌ as append}
use nixbot.Webhooks.Deliveries.{DeliveryDeduper, is_duplicate, record_delivery, forget}

-- An HTTPException has a status and a detail; another exception passes through the framework.
pub data Failure : Type 0 where
  http : ℕ → String → Failure
  raised : Exception → Failure

pub record Response : Type 0 where
  pub status : ℕ
  pub content : String

-- The chunks of a body are those that the stream brings.
pub record Request : Type 0 where
  pub header : String → Option String
  pub stream : List Bytes

-- The libraries that a handler calls. `decode` is `parse_webhook_body`'s reading of a body of a
-- content type: `none` for what does not decode. A submission fails by an exception.
pub record Services : Type 0 where
  pub hmac_hex : String → Bytes → String
  pub decode : Bool → Bytes → Option Json
  pub submit_ok : WebhookEvent → Bool

abbrev pub max_body_size : ℕ
max_body_size = 25 * 1024 * 1024

abbrev pub header_or_empty : Option String → String
header_or_empty none = ""
header_or_empty (some value) = value

abbrev pub header_of : String → Request → String
header_of name request = header_or_empty (request.header name)

-- `request.headers.get(name, "")`, then the chunks until one is too many
unfoldable pub read_chunks : Bytes → List Bytes → Result Failure Bytes
read_chunks body [] = ok body
read_chunks body (chunk ∷ chunks) =
    if ltb max_body_size (length (body ++ chunk))
    then err (http 413 "payload too large")
    else read_chunks (body ++ chunk) chunks

-- An exception of a parser, or its result.
abbrev pub lift : {A : Type 0} → Result Exception A → Result Failure A
lift (ok a) = ok a
lift (err e) = err (raised e)

-- What a handler leaves behind: the deliveries, the events that were submitted, and its outcome.
pub record Handled : Type 0 where
  pub deduper : DeliveryDeduper
  pub submitted : List WebhookEvent
  pub outcome : Result Failure Response

module _ (py : Python) (services : Services) where
  unfoldable pub declared_too_large : String → Result Failure Bool
  declared_too_large declared =
      if is_digits py declared
      then lift (digits py declared) >>= (λ n. ok (ltb max_body_size n))
      else ok false

  unfoldable pub read_body : Request → Result Failure Bytes
  read_body request = do
    too_large ← declared_too_large (header_of "Content-Length" request)
    if too_large then err (http 413 "payload too large") else read_chunks [] request.stream

  abbrev pub is_form : String → Bool
  is_form content_type = elim (strip_prefix "application/x-www-form-urlencoded" content_type) [
    | some _ ↦ true
    | none ↦ false
  ]

  unfoldable pub parse_webhook_body : Request → Bytes → Result Failure Fields
  parse_webhook_body request body =
      elim (services.decode (is_form (header_of "Content-Type" request)) body) [
        | some (obj fields) ↦ ok fields
        | _ ↦ err (http 400 "malformed payload")
      ]

  -- `compare_digest` on what `hmac.new(...).hexdigest()` returns
  unfoldable pub verify_github_signature : String → Bytes → String → Bool
  verify_github_signature secret body signature_header =
      elim (strip_prefix "sha256=" signature_header) [
        | none ↦ false
        | some signature ↦ signature == services.hmac_hex secret body
      ]

  unfoldable pub verify_gitea_signature : String → Bytes → String → Bool
  verify_gitea_signature secret body signature_header =
      signature_header == services.hmac_hex secret body

  unfoldable pub verify_gitlab_token : String → Bytes → String → Bool
  verify_gitlab_token secret body token = token == secret

  abbrev pub fails : DeliveryDeduper → Failure → Handled
  fails d failure = record { deduper = d; submitted = []; outcome = err failure }

  abbrev pub answers : DeliveryDeduper → List WebhookEvent → ℕ → String → Handled
  answers d events status content = record {
    deduper = d;
    submitted = events;
    outcome = ok (record { status = status; content = content });
  }

  -- `_submit`: the delivery is recorded first, and forgotten if the sink raises.
  unfoldable pub submit : WebhookEvent → String → DeliveryDeduper → Handled
  submit event guid d =
      if services.submit_ok event
      then answers (record_delivery guid d) (event ∷ []) 202 "accepted"
      else fails (forget guid (record_delivery guid d)) (http 500 "temporarily unavailable")

  -- `_dispatch`
  unfoldable pub dispatch_event : String → Option WebhookEvent → DeliveryDeduper → Handled
  dispatch_event guid none d = answers (record_delivery guid d) [] 200 "ignored"
  dispatch_event guid (some event) d = submit event guid d

  abbrev pub dispatch_parsed :
      String → Result Failure (Option WebhookEvent) → DeliveryDeduper → Handled
  dispatch_parsed guid (ok event) d = dispatch_event guid event d
  dispatch_parsed guid (err failure) d = fails d failure

  -- a delivery that was seen is answered, another one parsed and dispatched
  unfoldable pub deliver : String → Result Failure (Option WebhookEvent) → DeliveryDeduper → Handled
  deliver guid parsed d =
      let (duplicate, d') = is_duplicate guid d in
      if duplicate then answers d' [] 202 "duplicate delivery" else dispatch_parsed guid parsed d'

  unfoldable pub handle_github : Option String → Request → DeliveryDeduper → Handled
  handle_github none request d = fails d (http 404 "github not configured")
  handle_github (some secret) request d = elim (read_body request) [
    | err failure ↦ fails d failure
    | ok body ↦
        if not (verify_github_signature secret body (header_of "X-Hub-Signature-256" request))
        then fails d (http 403 "invalid signature")
        else deliver (header_of "X-GitHub-Delivery" request)
            (parse_webhook_body request body >>= (λ payload.
              lift (parse_github_event py (header_of "X-GitHub-Event" request) payload)))
            d
  ]

-- `_TokenForge`: what differs between the forges whose repositories have a secret each.
pub record TokenForge : Type 0 where
  pub name : String
  pub repo_id_key : String
  pub auth_header : String
  pub verify : String → Bytes → String → Bool
  pub auth_error : String
  pub guid_header : String
  pub event_header : String
  pub parse : String → Fields → Result Exception (Option WebhookEvent)

module _ (py : Python) (services : Services) where
  abbrev pub gitea_forge : TokenForge
  gitea_forge = record {
    name = "gitea";
    repo_id_key = "repository";
    auth_header = "X-Gitea-Signature";
    verify = verify_gitea_signature py services;
    auth_error = "invalid signature";
    guid_header = "X-Gitea-Delivery";
    event_header = "X-Gitea-Event";
    parse = parse_gitea_event py;
  }

  abbrev pub gitlab_forge : TokenForge
  gitlab_forge = record {
    name = "gitlab";
    repo_id_key = "project";
    auth_header = "X-Gitlab-Token";
    verify = verify_gitlab_token py services;
    auth_error = "invalid token";
    guid_header = "X-Gitlab-Event-UUID";
    event_header = "X-Gitlab-Event";
    parse = parse_gitlab_event py;
  }

  -- A delivery whose secret is known: it is authentic, or refused.
  unfoldable pub handle_authentic :
      TokenForge → Option String → Request → Bytes → Fields → DeliveryDeduper → Handled
  handle_authentic forge none request body payload d =
      fails py services d (http 403 forge.auth_error)
  handle_authentic forge (some secret) request body payload d =
      if not (forge.verify secret body (header_of forge.auth_header request))
      then fails py services d (http 403 forge.auth_error)
      else deliver py services (header_of forge.guid_header request)
          (lift (forge.parse (header_of forge.event_header request) payload)) d

  -- the body of a delivery, its payload, and the repository that the payload names
  unfoldable pub read_delivery : TokenForge → Request → Result Failure (Bytes × Fields × String)
  read_delivery forge request = do
    body ← read_body py services request
    payload ← parse_webhook_body py services request body
    repo_id ← lift (repo_id_of py forge.repo_id_key payload)
    ok (body, payload, repo_id)

  -- The store of secrets has none of an answer while the database is out.
  unfoldable pub handle_token_forge :
      TokenForge → Option (String → Option (Option String)) → Request → DeliveryDeduper → Handled
  handle_token_forge forge none request d =
      fails py services d (http 404 (append forge.name " not configured"))
  handle_token_forge forge (some secret_for_repo) request d = elim (read_delivery forge request) [
    | err failure ↦ fails py services d failure
    | ok (body, payload, repo_id) ↦ elim (secret_for_repo repo_id) [
      | none ↦ fails py services d (http 500 "database unavailable")
      | some secret ↦ handle_authentic forge secret request body payload d
    ]
  ]
