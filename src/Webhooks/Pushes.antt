-- ===== src/Webhooks/Pushes.antt =====
-- webhooks.py: the requests that pushes become.
use nixbot.Prelude.{
  ◌≡◌, refl, ap, ◌∙◌, ◌⊎◌, inl, inr, Bool, true, false, Option, none, some, String, Result, ok,
  ◌>>=◌, >>=-eq-ok, if◌then◌else◌, ◌==◌, string_eq, arith, Bool-cases, Option-cases,
}
use nixbot.Prelude.Json.{Json, Fields, null, str, truthy}
use nixbot.Prelude.Prefixes.{strip_prefix, strip_prefix-append}
use nixbot.Webhooks.Values.{Exception, Python, get_or, is_zeros, as_str, lookup_or}
use nixbot.Webhooks.Events.{ChangeRequest, WebhookEvent, change_request}
use nixbot.Webhooks.Parsing.{
  pushed_change, parse_github_push, parse_github_event, parse_push, parse_gitea_event, repo_id_of,
  commit_of,
}
use nixbot.Webhooks.Discussion.{pushed_ref, is_zero_sha, actor_of, or_else}
use nixbot.Webhooks.Gitlab.{parse_gitlab_event}
use Prim.Native.String.{◌++◌ as append}

-- A pushed ref is that of a branch, or that of a tag, which names the build context too.
abbrev pub IsRefOf : String → String → Option String → Type 0
IsRefOf ref branch tag =
    ((ref ≡ append "refs/heads/" branch) × (tag ≡ none))
    ⊎ ((ref ≡ append "refs/tags/" branch) × (tag ≡ some branch))

-- What a request says of the push that it comes from.
abbrev pub IsPushOf : Fields → WebhookEvent → Type 0
IsPushOf payload event =
    (r : ChangeRequest) × (ref : String) × (branch : String) × (event ≡ change_request r)
    × (get_or (str "") "ref" payload ≡ str ref)
    × (r.branch ≡ str branch)
    × IsRefOf ref branch r.tag
    × (r.commit_sha ≡ get_or (str "") "after" payload)
    × (truthy r.commit_sha ≡ true)
    × (is_zeros r.commit_sha ≡ ok false)
    × (r.pr_number ≡ null)

pushed_ref-IsRefOf :
    (ref branch : String) (tag : Option String)
    → pushed_ref ref ≡ some (branch, tag)
    → IsRefOf ref branch tag
unfolding pushed_ref
pushed_ref-IsRefOf ref branch tag h = elim (Option-cases (strip_prefix "refs/heads/" ref)) [
  | inr (rest, e) ↦
      let same : some (rest, none) ≡ some (branch, tag) = rw (e, pushed_ref) at h in
      inl (
        strip_prefix-append "refs/heads/" ref branch (ground (arith, e, same)),
        ground (arith, same),
      )
  | inl e ↦ elim (Option-cases (strip_prefix "refs/tags/" ref)) [
    | inr (rest, t) ↦
        let same : some (rest, some rest) ≡ some (branch, tag) = rw (e, pushed_ref, t) at h in
        inr (
          strip_prefix-append "refs/tags/" ref branch (ground (arith, t, same)),
          ground (arith, same),
        )
    | inl t ↦ absurd (ground (arith, rw (e, pushed_ref, t) at h))
  ]
]

as_str-eq : (v : Json) (s : String) → as_str v ≡ ok s → v ≡ str s
unfolding as_str
as_str-eq v s h = ground (arith, h)

zero_sha-false :
    (head : Json) → is_zero_sha head ≡ ok false → (truthy head ≡ true) × (is_zeros head ≡ ok false)
unfolding is_zero_sha
zero_sha-false head h = ground (arith, h)

event-eq :
    {a b : WebhookEvent}
    → ◌≡◌ {A = Result Exception (Option WebhookEvent)} (ok (some a)) (ok (some b))
    → b ≡ a
event-eq h = cc

module _ (py : Python) where
  pushed_change-request :
      (forge repo_id : String) (payload : Fields) (branch : String) (tag : Option String)
      (head head_commit : Json) (event : WebhookEvent)
      → pushed_change py forge repo_id payload (branch, tag) head head_commit ≡ ok (some event)
      → (r : ChangeRequest) × (event ≡ change_request r)
        × (r.branch ≡ str branch)
        × (r.tag ≡ tag)
        × (r.commit_sha ≡ head)
        × (r.pr_number ≡ null)
  unfolding pushed_change
  pushed_change-request forge repo_id payload branch tag head head_commit event h =
      let (message, _, h1) = >>=-eq-ok (lookup_or (str "") "message" head_commit) _ h in
      let (actor, _, h2) = >>=-eq-ok (actor_of py forge payload) _ h1 in
      (_, event-eq h2, refl, refl, refl, refl)

  push_of :
      (forge repo_id ref branch : String) (tag : Option String) (payload : Fields)
      (head_commit : Json) (event : WebhookEvent)
      → get_or (str "") "ref" payload ≡ str ref
      → pushed_ref ref ≡ some (branch, tag)
      → is_zero_sha (get_or (str "") "after" payload) ≡ ok false
      → pushed_change py forge repo_id payload
          (branch, tag)
          (get_or (str "") "after" payload)
          head_commit
        ≡ ok (some event)
      → IsPushOf payload event
  push_of forge repo_id ref branch tag payload head_commit event text pushed zero h =
      let head = get_or (str "") "after" payload in
      let (r, same, at, named, sha, number) =
        pushed_change-request forge repo_id payload branch tag head head_commit event h in
      let (truth, zeros) = zero_sha-false head zero in
      (
        r,
        ref,
        branch,
        same,
        text,
        at,
        rw named (pushed_ref-IsRefOf ref branch tag pushed),
        sha,
        rw sha truth,
        rw sha zeros,
        number,
      )

  github_push :
      (repo_id : String) (payload : Fields) (event : WebhookEvent)
      → parse_github_push py repo_id payload ≡ ok (some event)
      → IsPushOf payload event
  unfolding parse_github_push
  github_push repo_id payload event h =
      let (ref, text, h1) = >>=-eq-ok (as_str (get_or (str "") "ref" payload)) _ h in
      elim (Option-cases (pushed_ref ref)) [
        | inl p ↦ absurd (ground (arith, rw p at h1))
        | inr ((branch, tag), p) ↦ elim (Bool-cases (truthy (get_or null "deleted" payload))) [
          | inl deleted ↦ absurd (ground (arith, rw (p, deleted) at h1))
          | inr deleted ↦
              let (zero, z, h2) =
                >>=-eq-ok (is_zero_sha (get_or (str "") "after" payload)) _
                  (rw (p, deleted) at h1) in
              elim (Bool-cases zero) [
                | inl e ↦ absurd (ground (arith, rw e at h2))
                | inr e ↦
                    push_of "github" repo_id ref branch tag payload _ event
                      (as_str-eq (get_or (str "") "ref" payload) ref text) p (z ∙ ap ok e)
                      (rw e at h2)
              ]
        ]
      ]

  other_push :
      (forge : String) (has_head_commit : Bool) (repo_id : String) (payload : Fields)
      (event : WebhookEvent)
      → parse_push py forge has_head_commit repo_id payload ≡ ok (some event)
      → IsPushOf payload event
  unfolding parse_push
  other_push forge has_head_commit repo_id payload event h =
      let (ref, text, h1) = >>=-eq-ok (as_str (get_or (str "") "ref" payload)) _ h in
      elim (Option-cases (pushed_ref ref)) [
        | inl p ↦ absurd (ground (arith, rw p at h1))
        | inr ((branch, tag), p) ↦
            let (zero, z, h2) =
              >>=-eq-ok (is_zero_sha (get_or (str "") "after" payload)) _ (rw p at h1) in
            elim (Bool-cases zero) [
              | inl e ↦ absurd (ground (arith, rw e at h2))
              | inr e ↦
                  let (commit, _, h3) =
                    >>=-eq-ok
                      (or_else (if has_head_commit then get_or null "head_commit" payload else null)
                        (commit_of py payload (get_or (str "") "after" payload)))
                      _ (rw e at h2) in
                  push_of forge repo_id ref branch tag payload commit event
                    (as_str-eq (get_or (str "") "ref" payload) ref text) p (z ∙ ap ok e) h3
            ]
      ]

  -- Without a repository there is no event.
  in_repo :
      (key : String) (payload : Fields) (event : WebhookEvent)
      (parse : String → Result Exception (Option WebhookEvent))
      → (repo_id_of py key payload
          >>= (λ repo_id. if repo_id == "" then ok none else parse repo_id))
        ≡ ok (some event)
      → (repo_id : String) × (parse repo_id ≡ ok (some event))
  in_repo key payload event parse h =
      let (repo_id, _, h1) = >>=-eq-ok (repo_id_of py key payload) _ h in
      elim (Bool-cases (repo_id == "")) [
        | inl e ↦ absurd (ground (arith, rw e at h1))
        | inr e ↦ (repo_id, rw e at h1)
      ]

  -- Whatever payload and whatever reading of Unicode and of str(): an event that the parser of
  -- GitHub, Gitea or GitLab makes of a push is a change request for a branch or tag, its branch
  -- (and for a tag its tag) being what follows the prefix of the pushed ref, its commit the pushed
  -- head, which is not empty and not all zeros, and without a pull request number.
  pub parse_push-IsPushOf :
      (payload : Fields) (event : WebhookEvent)
      → (parse_github_event py "push" payload ≡ ok (some event))
        ⊎ (parse_gitea_event py "push" payload ≡ ok (some event))
        ⊎ (parse_gitlab_event py "Push Hook" payload ≡ ok (some event))
        ⊎ (parse_gitlab_event py "Tag Push Hook" payload ≡ ok (some event))
      → IsPushOf payload event
  unfolding parse_github_event parse_gitea_event parse_gitlab_event
  parse_push-IsPushOf payload event (inl h) =
      let (repo_id, pushed) =
        in_repo "repository" payload event (λ repo_id. parse_github_push py repo_id payload) h in
      github_push repo_id payload event pushed
  parse_push-IsPushOf payload event (inr (inl h)) =
      let (repo_id, pushed) =
        in_repo "repository" payload event (λ repo_id. parse_push py "gitea" true repo_id payload)
          h in
      other_push "gitea" true repo_id payload event pushed
  parse_push-IsPushOf payload event (inr (inr (inl h))) =
      let (repo_id, pushed) =
        in_repo "project" payload event (λ repo_id. parse_push py "gitlab" false repo_id payload)
          h in
      other_push "gitlab" false repo_id payload event pushed
  parse_push-IsPushOf payload event (inr (inr (inr h))) =
      let (repo_id, pushed) =
        in_repo "project" payload event (λ repo_id. parse_push py "gitlab" false repo_id payload)
          h in
      other_push "gitlab" false repo_id payload event pushed
