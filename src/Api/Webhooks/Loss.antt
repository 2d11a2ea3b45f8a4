-- ===== src/Api/Webhooks/Loss.antt =====
-- An event whose job the queue refuses.
use whatsapp_bot.Prelude.{
  ◌≡◌, refl, ◌∙◌, String, true, false, some, List, [], ◌∷◌, string_eq, text_eq_refl, arith,
}
use whatsapp_bot.Store.Session.{World, Job, Error, ok, err}
use whatsapp_bot.Repositories.Webhooks.{claim}
use whatsapp_bot.Repositories.Webhooks.Ledger.{IsLedger, claimed}
use whatsapp_bot.Api.Webhooks.{Queue, enqueue, claim_and_dispatch}
use whatsapp_bot.Api.Webhooks.Delivery.{go_on, run_step}

module _ (business_id : String) (job : String → Job) (event_type key : String) where
  go_on-refused :
      (queue : Queue) (keys : List String) (w : World) {e : Error}
      → queue (job key) w.jobs ≡ some e
      → go_on queue business_id job event_type key keys true w ≡ (err e, w)
  unfolding enqueue
  go_on-refused queue keys w refused = rw refused refl

  -- Where the ledger's constraints hold and the queue raises an exception on the job of a new event,
  -- the webhook call raises it and enqueues nothing, whatever events follow; and when the event is
  -- delivered again, to whatever queue, it is taken for a duplicate: the call answers that none was
  -- claimed and still enqueues nothing, so the event is lost.
  pub claim_and_dispatch-loses :
      (queue later : Queue) (keys : List String) (w : World) (e : Error)
      → IsLedger w.db
      → claimed business_id key w ≡ false
      → queue (job key) w.jobs ≡ some e
      → let first = claim_and_dispatch queue business_id job event_type (key ∷ keys) w in
        let again = claim_and_dispatch later business_id job event_type (key ∷ []) first.1 in
        (first.0 ≡ err e) × (first.1.jobs ≡ w.jobs) × (again.0 ≡ ok 0) × (again.1.jobs ≡ w.jobs)
  claim_and_dispatch-loses queue later keys w e l new refused =
      let w1 = (claim business_id key event_type w).1 in
      let (step, c) = run_step queue business_id job event_type key keys w l in
      let all : claim_and_dispatch queue business_id job event_type (key ∷ keys) w ≡ (err e, w1) =
        step ∙ rw new (go_on-refused queue keys w1 (rw c.jobs refused)) in
      let (step', c') = run_step later business_id job event_type key [] w1 c.ledger in
      let old : claimed business_id key w1 ≡ true = ground (arith, c.marks key, text_eq_refl key) in
      let w2 = (claim business_id key event_type w1).1 in
      let again : claim_and_dispatch later business_id job event_type (key ∷ []) w1 ≡ (ok 0, w2) =
        step' ∙ rw old (unfold claim_and_dispatch in refl) in
      rw (all, again) (refl, c.jobs, refl, c'.jobs ∙ c.jobs)
