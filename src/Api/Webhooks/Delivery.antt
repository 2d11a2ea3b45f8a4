-- ===== src/Api/Webhooks/Delivery.antt =====
-- Each event key is dispatched once, however often its event is delivered.
use mathlib.Core.Path.{fun_ext}
use whatsapp_bot.Prelude.{
  ℕ, ◌+◌, ◌≡◌, refl, sym, ap, ◌∙◌, String, Bool, true, false, none, List, [], ◌∷◌, ◌++◌, map, any,
  arith, ◌||◌, not, ◌==◌, string_eq, text_eq_refl, length, if◌then◌else◌, Bool-cases, inl, inr,
}
use mathlib.Core.List.{append-nil, append_assoc}
use whatsapp_bot.Store.Session.{
  World, Job, Result, M, ok, pure, ◌>>=◌, ◌>>◌, session_scope, session_scope-ok, bind-ok,
}
use whatsapp_bot.Repositories.Webhooks.{claim}
use whatsapp_bot.Repositories.Webhooks.Ledger.{IsLedger, claimed, claim_lem}
use whatsapp_bot.Api.Webhooks.{Queue, enqueue, claim_and_dispatch}

-- The keys that were not seen before, each at its first place.
abbrev pub first_seen : (String → Bool) → List String → List String
first_seen seen [] = []
first_seen seen (k ∷ ks) =
    let rest = first_seen (λ j. seen j || k == j) ks in if seen k then rest else k ∷ rest

module _ (queue : Queue) (business_id : String) (job : String → Job) (event_type : String) where
  -- What a run over the keys has done, from one world to another.
  pub record Dispatched (keys : List String) (w : World) (r : Result ℕ) (w' : World) : Type 0 where
    pub answer : r ≡ ok (length (first_seen (λ k. claimed business_id k w) keys))
    pub jobs : w'.jobs ≡ w.jobs ++ map job (first_seen (λ k. claimed business_id k w) keys)
    pub ledger : IsLedger w'.db
    pub taken :
        (k : String)
        → claimed business_id k w' ≡ (claimed business_id k w || any (λ j. j == k) keys)

  abbrev pub seen_in : World → String → Bool
  seen_in w k = claimed business_id k w

  -- One claim, and what it leaves to the rest of the run.
  pub record Claimed (key : String) (w w1 : World) : Type 0 where
    pub jobs : w1.jobs ≡ w.jobs
    pub ledger : IsLedger w1.db
    pub marks : (k : String) → seen_in w1 k ≡ (seen_in w k || key == k)

  first_seen_after :
      (key : String) (keys : List String) (w w1 : World)
      → Claimed key w w1
      → first_seen (seen_in w1) keys ≡ first_seen (λ k. seen_in w k || key == k) keys
  first_seen_after key keys w w1 c = ap (λ p. first_seen p keys) (fun_ext c.marks)

  taken_after :
      (key : String) (keys : List String) (w w1 w' : World)
      → Claimed key w w1
      → ((k : String) → seen_in w' k ≡ (seen_in w1 k || any (λ j. j == k) keys))
      → (k : String) → seen_in w' k ≡ (seen_in w k || any (λ j. j == k) (key ∷ keys))
  taken_after key keys w w1 w' c h k = ground (arith, h k, c.marks k)

  after_old :
      (key : String) (keys : List String) (w w1 : World) (r : Result ℕ) (w' : World)
      → Claimed key w w1
      → seen_in w key ≡ true
      → Dispatched keys w1 r w'
      → Dispatched (key ∷ keys) w r w'
  after_old key keys w w1 r w' c old d =
      let same = first_seen_after key keys w w1 c in
      record {
        answer = rw (old, ← same) d.answer;
        jobs = rw (old, ← same, ← c.jobs) d.jobs;
        ledger = d.ledger;
        taken = taken_after key keys w w1 w' c d.taken;
      }

  after_new :
      (key : String) (keys : List String) (w w1 : World) (n : ℕ) (w' : World)
      → Claimed key w w1
      → seen_in w key ≡ false
      → Dispatched keys (record w1 { jobs = w1.jobs ++ job key ∷ [] }) (ok n) w'
      → Dispatched (key ∷ keys) w (ok (n + 1)) w'
  after_new key keys w w1 n w' c new d =
      let same = first_seen_after key keys w w1 c in
      record {
        answer = rw (new, ← same) (ground (arith, d.answer));
        jobs = rw (new, ← same, ← c.jobs) (d.jobs ∙ append_assoc w1.jobs (job key ∷ []) _);
        ledger = d.ledger;
        taken = taken_after key keys w w1 w' c d.taken;
      }

  abbrev pub run : List String → M ℕ
  run keys = claim_and_dispatch queue business_id job event_type keys

  -- The rest of the loop after the claim.
  abbrev pub go_on : String → List String → Bool → M ℕ
  go_on key keys claimed =
      let rest = run keys in
      if claimed then (enqueue queue (job key) >> (rest >>= λ n. pure (n + 1))) else rest

  pub run_step :
      (key : String) (keys : List String) (w : World)
      → IsLedger w.db
      → let w1 = (claim business_id key event_type w).1 in
        (run (key ∷ keys) w ≡ go_on key keys (not (seen_in w key)) w1) × Claimed key w w1
  unfolding claim_and_dispatch
  run_step key keys w l =
      let (done, quiet, ledger, marks) = claim_lem business_id key event_type w l in
      let w1 = (claim business_id key event_type w).1 in
      (
        bind-ok (session_scope (claim business_id key event_type)) (go_on key keys) (
            session_scope-ok (claim business_id key event_type)
              (ap (λ (r : Result Bool). (r, w1)) done)),
        record {
          jobs = quiet;
          ledger = ledger;
          marks = λ k. ground (arith, marks business_id k, text_eq_refl business_id);
        },
      )

  dispatched :
      ((j : Job) → (js : List Job) → queue j js ≡ none)
      → (key : String) → (keys : List String) → (w1 w' : World) → (n : ℕ)
      → run keys (record w1 { jobs = w1.jobs ++ job key ∷ [] }) ≡ (ok n, w')
      → go_on key keys true w1 ≡ (ok (n + 1), w')
  unfolding enqueue
  dispatched accepts key keys w1 w' n rest =
      rw (accepts (job key) w1.jobs) (bind-ok (run keys) (λ m. pure (m + 1)) rest)

  -- Where the queue takes every job and the ledger's constraints hold, every key that was not
  -- claimed before is dispatched, at its first place and in order, and the number returned is
  -- theirs; all keys of the call are claimed then, and no others.
  pub claim_and_dispatch_once :
      ((j : Job) → (js : List Job) → queue j js ≡ none)
      → (keys : List String) → (w : World) → IsLedger w.db
      → Dispatched keys w
          (claim_and_dispatch queue business_id job event_type keys w).0
          (claim_and_dispatch queue business_id job event_type keys w).1
  claim_and_dispatch_once accepts [] w l =
      unfold claim_and_dispatch in
      record {
        answer = refl;
        jobs = sym (append-nil w.jobs);
        ledger = l;
        taken = λ k. ground arith;
      }
  claim_and_dispatch_once accepts (key ∷ keys) w l =
      let w1 = (claim business_id key event_type w).1 in
      let (step, c) = run_step key keys w l in
      elim (Bool-cases (seen_in w key)) [
        | inl old ↦
            rw (step, old)
              (after_old key keys w w1 (run keys w1).0 (run keys w1).1 c old
                (claim_and_dispatch_once accepts keys w1 c.ledger))
        | inr new ↦
            let w2 : World = record w1 { jobs = w1.jobs ++ job key ∷ [] } in
            let d = claim_and_dispatch_once accepts keys w2 c.ledger in
            let n = length (first_seen (seen_in w2) keys) in
            let rest : run keys w2 ≡ (ok n, (run keys w2).1) =
              ap (λ (r : Result ℕ). (r, (run keys w2).1)) d.answer in
            let all : run (key ∷ keys) w ≡ (ok (n + 1), (run keys w2).1) =
              step ∙ rw new (dispatched accepts key keys w1 (run keys w2).1 n rest) in
            rw all (after_new key keys w w1 n (run keys w2).1 c new (rw rest at d))
      ]

  first_seen_none :
      (seen : String → Bool) (keys : List String)
      → ((k : String) → any (λ j. j == k) keys ≡ true → seen k ≡ true)
      → first_seen seen keys ≡ []
  first_seen_none seen [] h = refl
  first_seen_none seen (k ∷ ks) h =
      let old : seen k ≡ true = h k (ground (arith, text_eq_refl k)) in
      rw old (first_seen_none (λ j. seen j || k == j) ks λ j e. ground (arith, h j))

  -- Where the queue takes every job and the ledger's constraints held, delivering the same events
  -- again enqueues nothing and answers that none was claimed.
  pub claim_and_dispatch_again :
      ((j : Job) → (js : List Job) → queue j js ≡ none)
      → (keys : List String) → (w : World) → IsLedger w.db
      → let w' = (claim_and_dispatch queue business_id job event_type keys w).1 in
        ((claim_and_dispatch queue business_id job event_type keys w').0 ≡ ok 0)
        × ((claim_and_dispatch queue business_id job event_type keys w').1.jobs ≡ w'.jobs)
  claim_and_dispatch_again accepts keys w l =
      let first = claim_and_dispatch_once accepts keys w l in
      let w' = (run keys w).1 in
      let second = claim_and_dispatch_once accepts keys w' first.ledger in
      let nothing : first_seen (seen_in w') keys ≡ [] =
        first_seen_none (seen_in w') keys λ k e. ground (arith, first.taken k, e) in
      (rw nothing at second.answer, rw nothing at second.jobs ∙ append-nil w'.jobs)
