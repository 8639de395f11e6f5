-- ===== src/Webhooks/Events.antt =====
-- webhooks.py: the events that a payload is parsed into. A field that the parser copies from the
-- payload without a test holds the payload's value, whatever its type; None is `null`.
use nixbot.Prelude.{ℕ, String, Bool, Option}
use nixbot.Prelude.Json.{Json}

pub record ChangeRequest : Type 0 where
  pub forge : String
  pub forge_repo_id : String
  pub branch : Json
  pub commit_sha : Json
  pub commit_message : Json
  pub pr_number : Json
  pub pr_author : Option String
  pub base_sha : Json
  pub actor : Option String
  pub author_association : Json
  pub head_in_base_repo : Bool
  pub head_ref : Json
  pub tag : Option String

pub record PrClosed : Type 0 where
  pub forge : String
  pub forge_repo_id : String
  pub pr_number : Json
  pub merged : Bool
  pub actor : Option String

pub record PrLabeled : Type 0 where
  pub forge : String
  pub forge_repo_id : String
  pub pr_number : Json
  pub actor : Option String

pub record PrComment : Type 0 where
  pub forge : String
  pub forge_repo_id : String
  pub pr_number : Json
  pub actor : String
  pub command : String
  pub args : String

pub record CheckRerequested : Type 0 where
  pub forge : String
  pub forge_repo_id : String
  pub head_sha : Json
  pub build_id : Option ℕ
  pub name : Json

pub record PrApproved : Type 0 where
  pub forge : String
  pub forge_repo_id : String
  pub pr_number : ℕ
  pub actor : Option String

pub data WebhookEvent : Type 0 where
  change_request : ChangeRequest → WebhookEvent
  pr_closed : PrClosed → WebhookEvent
  pr_comment : PrComment → WebhookEvent
  pr_labeled : PrLabeled → WebhookEvent
  check_rerequested : CheckRerequested → WebhookEvent
  pr_approved : PrApproved → WebhookEvent
