-- ===== src/Webhooks/Deduplication.antt =====
-- webhooks.py: what becomes of a delivery that a forge sends again.
use nixbot.Prelude.{
  ℕ, ◌+◌, ◌≤◌, ◌<◌, ◌≡◌, refl, ap, ◌⊎◌, Bool, true, false, not, ◌&&◌, Option, none, some, inl, inr,
  List, [], ◌∷◌, ◌++◌, String, Result, ok, err, ◌==◌, string_eq, elem, elem-append, length,
  length-append, arith, Bool-cases, nat_eq,
}
use nixbot.Webhooks.Values.{Python}
use nixbot.Webhooks.Events.{WebhookEvent}
use nixbot.Webhooks.Deliveries.{DeliveryDeduper, is_duplicate, record_delivery, forget, without}
use nixbot.Webhooks.Handlers.{
  Failure, Response, Services, submit, dispatch_event, dispatch_parsed, deliver, answers,
}
use nixbot.Webhooks.Recent.{
  behind-append_new, elem-without, length-without, IsRecent, later, evict-IsRecent, record-IsRecent,
  forget-IsRecent, duplicate-IsRecent, is_duplicate-miss, is_duplicate-hit,
}

module _ (py : Python) (services : Services) where
  deliver-miss :
      (guid : String) (parsed : Result Failure (Option WebhookEvent)) (d : DeliveryDeduper)
      → (is_duplicate guid d).0 ≡ false
      → deliver py services guid parsed d ≡ dispatch_parsed py services guid parsed d
  unfolding deliver
  deliver-miss guid parsed d h =
      rw (h, deliver)
        (ap (λ e. dispatch_parsed py services guid parsed e) (is_duplicate-miss guid d h))

  deliver-hit :
      (guid : String) (parsed : Result Failure (Option WebhookEvent)) (d : DeliveryDeduper)
      → (is_duplicate guid d).0 ≡ true
      → deliver py services guid parsed d
        ≡ answers py services (is_duplicate guid d).1 [] 202 "duplicate delivery"
  unfolding deliver
  deliver-hit guid parsed d h = rw (h, deliver) refl

  -- What a dispatched delivery does to the set: it is recorded, or nothing is left of it.
  dispatched :
      (guid : String) (parsed : Result Failure (Option WebhookEvent)) (d : DeliveryDeduper)
      → (((dispatch_parsed py services guid parsed d).deduper ≡ record_delivery guid d)
          × (response : Response) × ((dispatch_parsed py services guid parsed d).outcome
              ≡ ok response))
        ⊎ ((((dispatch_parsed py services guid parsed d).deduper ≡ d)
              ⊎ ((dispatch_parsed py services guid parsed d).deduper
                  ≡ forget guid (record_delivery guid d)))
            × (failure : Failure) × ((dispatch_parsed py services guid parsed d).outcome
                ≡ err failure))
  unfolding dispatch_event submit
  dispatched guid (err failure) d = inr (inl refl, failure, refl)
  dispatched guid (ok none) d = inl (refl, _, refl)
  dispatched guid (ok (some event)) d = elim (Bool-cases (services.submit_ok event)) [
    | inl e ↦ rw (e, submit) (inl (refl, _, refl))
    | inr e ↦ rw (e, submit) (inr (inr refl, _, refl))
  ]

  deliver-IsRecent :
      (g other : String) (n limit : ℕ) (parsed : Result Failure (Option WebhookEvent))
      (d : DeliveryDeduper)
      → IsRecent g n limit d
      → (other == g) ≡ false
      → n + 1 < limit
      → IsRecent g (n + 1) limit (deliver py services other parsed d).deduper
  deliver-IsRecent g other n limit parsed d c differs room =
      elim (Bool-cases (is_duplicate other d).0) [
        | inl e ↦ rw (deliver-hit other parsed d e) (duplicate-IsRecent g other n limit d c differs)
        | inr e ↦ rw (deliver-miss other parsed d e) (elim (dispatched other parsed d) [
          | inl (same, response, outcome) ↦
              rw same (record-IsRecent g other n limit d c differs room)
          | inr (inl same, failure, outcome) ↦ rw same (later g n limit d c)
          | inr (inr same, failure, outcome) ↦ rw same (
              forget-IsRecent g other (n + 1) limit (record_delivery other d)
                (record-IsRecent g other n limit d c differs room) differs)
        ])
      ]

  unfoldable pub deliver_all :
      List (String × Result Failure (Option WebhookEvent)) → DeliveryDeduper → DeliveryDeduper
  deliver_all [] d = d
  deliver_all ((guid, parsed) ∷ deliveries) d =
      deliver_all deliveries (deliver py services guid parsed d).deduper

  abbrev pub is_absent : String → List (String × Result Failure (Option WebhookEvent)) → Bool
  is_absent g [] = true
  is_absent g ((guid, parsed) ∷ deliveries) = not (guid == g) && is_absent g deliveries

  deliver_all-IsRecent :
      (g : String) (deliveries : List (String × Result Failure (Option WebhookEvent))) (n limit : ℕ)
      (d : DeliveryDeduper)
      → IsRecent g n limit d
      → is_absent g deliveries ≡ true
      → n + length deliveries < limit
      → IsRecent g (n + length deliveries) limit (deliver_all deliveries d)
  unfolding deliver_all
  deliver_all-IsRecent g [] n limit d c absent room = record {
    seen = c.seen;
    late = omega (arith, c.late);
    bounded = c.bounded;
    capped = c.capped;
  }
  deliver_all-IsRecent g ((guid, parsed) ∷ deliveries) n limit d c absent room =
      let c' =
        deliver_all-IsRecent g deliveries (n + 1) limit (deliver py services guid parsed d).deduper
          (deliver-IsRecent g guid n limit parsed d c (ground (arith, absent)) (omega arith))
          (ground (arith, absent)) (omega arith) in
      record {
        seen = c'.seen;
        late = omega (arith, c'.late);
        bounded = c'.bounded;
        capped = c'.capped;
      }

  -- An answered delivery is the most recent one, whether it was a duplicate or is recorded now.
  answered-IsRecent :
      (guid : String) (parsed : Result Failure (Option WebhookEvent)) (response : Response)
      (d : DeliveryDeduper)
      → (guid == "") ≡ false
      → length d.seen ≤ d.limit
      → 0 < d.limit
      → (deliver py services guid parsed d).outcome ≡ ok response
      → IsRecent guid 0 d.limit (deliver py services guid parsed d).deduper
  unfolding is_duplicate record_delivery elem
  answered-IsRecent guid parsed response d named bounded some_room h =
      elim (Bool-cases (elem guid d.seen)) [
        | inl e ↦ rw (deliver-hit guid parsed d (is_duplicate-hit guid d named e)) (
            rw (named, is_duplicate, e)
              (record {
                seen = ground (
                  arith,
                  elem-append guid (without guid d.seen) (guid ∷ []),
                  string_eq.beq_iff guid guid,
                );
                late = omega (
                  arith,
                  behind-append_new guid (without guid d.seen)
                      (ground (arith, elem-without guid guid d.seen, string_eq.beq_iff guid guid)),
                );
                bounded = ground (
                  arith,
                  length-append (without guid d.seen) (guid ∷ []),
                  length-without guid d.seen,
                  e,
                  bounded,
                );
                capped = refl;
              }))
        | inr e ↦
            let miss : (is_duplicate guid d).0 ≡ false = ground (arith, named, e) in
            let same = deliver-miss guid parsed d miss in
            rw same (elim (dispatched guid parsed d) [
              | inl (recorded, answer, outcome) ↦
                  rw (recorded, named, record_delivery, e)
                    (evict-IsRecent guid 0 d.limit (record d { seen = d.seen ++ guid ∷ [] })
                      (ground
                        (arith, elem-append guid d.seen (guid ∷ []), string_eq.beq_iff guid guid))
                      (omega (arith, behind-append_new guid d.seen e)) some_room
                      (omega (arith, length-append d.seen (guid ∷ []), bounded)) refl)
              | inr (_, failure, outcome) ↦ absurd (raises failure same outcome)
            ])
      ]
    where
      raises :
          (failure : Failure)
          → deliver py services guid parsed d ≡ dispatch_parsed py services guid parsed d
          → (dispatch_parsed py services guid parsed d).outcome ≡ err failure
          → ⊥
      raises failure same outcome = cc

  -- A delivery with an id that was answered without an exception, the set of deliveries being
  -- within its capacity, is answered as a duplicate and submits nothing when it comes again, if
  -- fewer deliveries than the capacity come in between, all with other ids, and whatever becomes of
  -- these.
  pub deliver-duplicate :
      (guid : String) (first again : Result Failure (Option WebhookEvent)) (response : Response)
      (d : DeliveryDeduper) (between : List (String × Result Failure (Option WebhookEvent)))
      → (guid == "") ≡ false
      → length d.seen ≤ d.limit
      → (deliver py services guid first d).outcome ≡ ok response
      → is_absent guid between ≡ true
      → length between < d.limit
      → ((deliver py services guid again
            (deliver_all between (deliver py services guid first d).deduper)).submitted
          ≡ [])
        × ((deliver py services guid again
              (deliver_all between (deliver py services guid first d).deduper)).outcome
            ≡ ok (record { status = 202; content = "duplicate delivery" }))
  deliver-duplicate guid first again response d between named bounded h absent room =
      let d' = deliver_all between (deliver py services guid first d).deduper in
      let c =
        deliver_all-IsRecent guid between 0 d.limit (deliver py services guid first d).deduper
          (answered-IsRecent guid first response d named bounded (omega (arith, room)) h) absent
          (omega (arith, room)) in
      rw (deliver-hit guid again d' (is_duplicate-hit guid d' named c.seen)) (refl, refl)

  not_seen :
      (guid : String) (d : DeliveryDeduper)
      → elem guid d.seen ≡ false
      → (is_duplicate guid d).0 ≡ false
  unfolding is_duplicate
  not_seen guid d h = ground (arith, h)

  was_not_seen :
      (guid : String) (d : DeliveryDeduper)
      → (guid == "") ≡ false
      → (is_duplicate guid d).0 ≡ false
      → elem guid d.seen ≡ false
  unfolding is_duplicate
  was_not_seen guid d named h = ground (arith, h, named)

  -- A delivery with an id whose handling ended in an exception, of the parser or of the sink, is
  -- dispatched and not taken for a duplicate when the forge sends it again.
  pub deliver-retry :
      (guid : String) (parsed again : Result Failure (Option WebhookEvent)) (failure : Failure)
      (d : DeliveryDeduper)
      → (guid == "") ≡ false
      → (deliver py services guid parsed d).outcome ≡ err failure
      → deliver py services guid again (deliver py services guid parsed d).deduper
        ≡ dispatch_parsed py services guid again (deliver py services guid parsed d).deduper
  unfolding forget elem
  deliver-retry guid parsed again failure d named h = elim (Bool-cases (is_duplicate guid d).0) [
    | inl e ↦ absurd (hit e)
    | inr e ↦
        let same = deliver-miss guid parsed d e in
        let absent = was_not_seen guid d named e in
        deliver-miss guid again (deliver py services guid parsed d).deduper (
          not_seen guid (deliver py services guid parsed d).deduper (
            rw same (elim (dispatched guid parsed d) [
              | inl (_, answer, outcome) ↦ absurd (answers_ok answer same outcome)
              | inr (inl kept, _, _) ↦ rw kept absent
              | inr (inr forgotten, _, _) ↦ rw forgotten (
                  ground (
                    arith,
                    elem-without guid guid (record_delivery guid d).seen,
                    string_eq.beq_iff guid guid,
                  ))
            ])))
  ]
    where
      hit : (is_duplicate guid d).0 ≡ true → ⊥
      hit e =
          let answered : (deliver py services guid parsed d).outcome
              ≡ ok (record { status = 202; content = "duplicate delivery" }) =
            ap (λ handled. handled.outcome) (deliver-hit guid parsed d e) in
          cc

      answers_ok :
          (answer : Response)
          → deliver py services guid parsed d ≡ dispatch_parsed py services guid parsed d
          → (dispatch_parsed py services guid parsed d).outcome ≡ ok answer
          → ⊥
      answers_ok answer same outcome = cc
