-- ===== src/Webhooks/Authentic.antt =====
-- webhooks.py: what a forge has to know for its delivery to be submitted.
use nixbot.Prelude.{
  Bytes, ◌≤◌, ◌≡◌, refl, ap, ◌∙◌, inl, inr, true, Option, none, some, List, [], ◌∷◌, ◌++◌, String,
  Result, ok, err, ◌>>=◌, >>=-eq-ok, Result-cases, string_eq, length, ltb, arith, Bool-cases,
  Option-cases,
}
use nixbot.Prelude.Json.{Fields}
use nixbot.Prelude.Prefixes.{strip_prefix, strip_prefix-append}
use nixbot.Webhooks.Values.{Python, Exception}
use nixbot.Webhooks.Events.{WebhookEvent}
use nixbot.Webhooks.Deliveries.{DeliveryDeduper}
use nixbot.Webhooks.Parsing.{parse_github_event}
use nixbot.Webhooks.Handlers.{
  Failure, Services, Request, TokenForge, header_of, max_body_size, read_chunks, read_body,
  declared_too_large, parse_webhook_body, verify_github_signature, lift, submit, dispatch_event,
  deliver, handle_github, handle_token_forge, handle_authentic, read_delivery,
}
use Prim.Native.String.{◌++◌ as append}

module _ (py : Python) (services : Services) where
  -- A submitted event is the one that was parsed, and its delivery was not seen before.
  deliver-parsed :
      (guid : String) (parsed : Result Failure (Option WebhookEvent)) (event : WebhookEvent)
      (d : DeliveryDeduper)
      → (deliver py services guid parsed d).submitted ≡ event ∷ []
      → parsed ≡ ok (some event)
  unfolding deliver dispatch_event submit
  deliver-parsed guid parsed event d h = ground (arith, h)

  parsed_payload :
      (request : Request) (body : Bytes) (parse : Fields → Result Failure (Option WebhookEvent))
      (event : WebhookEvent)
      → (parse_webhook_body py services request body >>= parse) ≡ ok (some event)
      → (payload : Fields) × (parse_webhook_body py services request body ≡ ok payload)
        × (parse payload ≡ ok (some event))
  parsed_payload request body parse event h =
      >>=-eq-ok (parse_webhook_body py services request body) parse h

  lift-eq-ok :
      {A : Type 0} (raised : Result Exception A) (a : A) → lift raised ≡ ok a → raised ≡ ok a
  lift-eq-ok (ok b) a h = ground (arith, h)
  lift-eq-ok (err e) a h = ground (arith, h)

  read_chunks-bounded :
      (start : Bytes) (chunks : List Bytes) (body : Bytes)
      → length start ≤ max_body_size
      → read_chunks start chunks ≡ ok body
      → length body ≤ max_body_size
  unfolding read_chunks
  read_chunks-bounded start [] body small h = ground (arith, h, small)
  read_chunks-bounded start (chunk ∷ chunks) body small h =
      elim (Bool-cases (ltb max_body_size (length (start ++ chunk)))) [
        | inl e ↦ absurd (refused e)
        | inr e ↦
            read_chunks-bounded (start ++ chunk) chunks body (ground (arith, e))
              (rw (e, read_chunks) at h)
      ]
    where
      refused : ltb max_body_size (length (start ++ chunk)) ≡ true → ⊥
      refused e = ground (arith, rw (e, read_chunks) at h)

  read_body-bounded :
      (request : Request) (body : Bytes)
      → read_body py services request ≡ ok body
      → length body ≤ max_body_size
  unfolding read_body
  read_body-bounded request body h =
      let (large, _, rest) =
        >>=-eq-ok (declared_too_large py services (header_of "Content-Length" request)) _ h in
      elim (Bool-cases large) [
        | inl e ↦ absurd (ground (arith, rw e at rest))
        | inr e ↦ read_chunks-bounded [] request.stream body (omega arith) (rw e at rest)
      ]

  authentic_header :
      (secret : String) (body : Bytes) (header : String)
      → verify_github_signature py services secret body header ≡ true
      → header ≡ append "sha256=" (services.hmac_hex secret body)
  unfolding verify_github_signature
  authentic_header secret body header h = elim (Option-cases (strip_prefix "sha256=" header)) [
    | inl e ↦ absurd (ground (arith, rw (e, verify_github_signature) at h))
    | inr (signature, e) ↦
        strip_prefix-append "sha256=" header signature e
        ∙ ap (λ s. append "sha256=" s)
            ((string_eq.beq_iff signature (services.hmac_hex secret body)).0
              (rw (e, verify_github_signature) at h))
  ]

  -- When the GitHub handler submits an event, a secret is configured, the body was read within the
  -- size limit, the signature header is sha256= and the HMAC of the body under that secret, and the
  -- event is what the parser makes of the decoded body.
  pub handle_github-authentic :
      (configured : Option String) (request : Request) (event : WebhookEvent) (d : DeliveryDeduper)
      → (handle_github py services configured request d).submitted ≡ event ∷ []
      → (secret : String) × (body : Bytes) × (payload : Fields) × (configured ≡ some secret)
        × (read_body py services request ≡ ok body)
        × (length body ≤ max_body_size)
        × (header_of "X-Hub-Signature-256" request
            ≡ append "sha256=" (services.hmac_hex secret body))
        × (parse_webhook_body py services request body ≡ ok payload)
        × (parse_github_event py (header_of "X-GitHub-Event" request) payload ≡ ok (some event))
  unfolding handle_github
  handle_github-authentic none request event d h = absurd (ground (arith, h))
  handle_github-authentic (some secret) request event d h =
      elim (Result-cases (read_body py services request)) [
        | inl (failure, e) ↦ absurd (ground (arith, rw (e, handle_github) at h))
        | inr (body, e) ↦
            elim (Bool-cases (
              verify_github_signature py services secret body
                (header_of "X-Hub-Signature-256" request))) [
                  | inr v ↦ absurd (ground (arith, rw (e, handle_github, v) at h))
                  | inl v ↦
                      let parsed =
                        deliver-parsed (header_of "X-GitHub-Delivery" request) _ event d
                          (rw (e, handle_github, v) at h) in
                      let (payload, decoded, result) =
                        >>=-eq-ok (parse_webhook_body py services request body) _ parsed in
                      (
                        secret,
                        body,
                        payload,
                        refl,
                        e,
                        read_body-bounded request body e,
                        authentic_header secret body (header_of "X-Hub-Signature-256" request) v,
                        decoded,
                        lift-eq-ok
                            (parse_github_event py (header_of "X-GitHub-Event" request) payload)
                            (some event) result,
                      )
                ]
      ]

  -- When the handler of a token forge submits an event, the store has a secret for the repository
  -- that the payload names, the forge's check of the request accepts that secret, and the event is
  -- what the forge's parser makes of the payload.
  pub handle_token_forge-authentic :
      (forge : TokenForge) (secrets : Option (String → Option (Option String))) (request : Request)
      (event : WebhookEvent) (d : DeliveryDeduper)
      → (handle_token_forge py services forge secrets request d).submitted ≡ event ∷ []
      → (store : String → Option (Option String)) × (body : Bytes) × (payload : Fields)
        × (repo_id : String) × (secret : String) × (secrets ≡ some store)
        × (read_delivery py services forge request ≡ ok (body, payload, repo_id))
        × (store repo_id ≡ some (some secret))
        × (forge.verify secret body (header_of forge.auth_header request) ≡ true)
        × (forge.parse (header_of forge.event_header request) payload ≡ ok (some event))
  unfolding handle_token_forge handle_authentic
  handle_token_forge-authentic forge none request event d h = absurd (ground (arith, h))
  handle_token_forge-authentic forge (some store) request event d h =
      elim (Result-cases (read_delivery py services forge request)) [
        | inl (failure, e) ↦ absurd (ground (arith, rw (e, handle_token_forge) at h))
        | inr ((body, payload, repo_id), e) ↦ elim (Option-cases (store repo_id)) [
          | inl s ↦ absurd (ground (arith, rw (e, handle_token_forge, s) at h))
          | inr (none, s) ↦ absurd (ground (arith, rw (e, handle_token_forge, s) at h))
          | inr (some secret, s) ↦
              elim (Bool-cases (forge.verify secret body (header_of forge.auth_header request))) [
                | inr v ↦ absurd (ground (arith, rw (e, handle_token_forge, s, v) at h))
                | inl v ↦
                    let parsed =
                      deliver-parsed (header_of forge.guid_header request) _ event d
                        (rw (e, handle_token_forge, s, v) at h) in
                    (
                      store,
                      body,
                      payload,
                      repo_id,
                      secret,
                      refl,
                      e,
                      s,
                      v,
                      lift-eq-ok (forge.parse (header_of forge.event_header request) payload)
                          (some event) parsed,
                    )
              ]
        ]
      ]
