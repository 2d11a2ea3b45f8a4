-- ===== src/Services/Campaign/Stage/Counts.antt =====
-- The report of a staging adds up.
use whatsapp_bot.Prelude.{
  is_blank, ℕ, ◌+◌, ◌≡◌, refl, String, false, Option, none, some, List, [], ◌∷◌, arith, any, length,
  string_eq, Bool-cases, inl, inr,
}
use whatsapp_bot.Domain.Config.{BusinessConfig, BotConfig, TemplateDefinition}
use whatsapp_bot.Domain.Models.{Contact, Campaign}
use whatsapp_bot.Domain.Rules.Eligibility.{EligibilityDecision}
use whatsapp_bot.Store.Session.{World, ok, Returns, Returns-bind, Returns-then}
use whatsapp_bot.Repositories.Contacts.{get_or_create_contact}
use whatsapp_bot.Repositories.Campaigns.{
  recipient_exists, is_recipient, create_recipient, refresh_counters,
}
use whatsapp_bot.Services.Consent.{check_eligibility, or_now}
use whatsapp_bot.Domain.Phone.{NormalisedPhone}
use whatsapp_bot.Services.Campaign.Data.{
  Host, RecipientRow, Tally, reject, bump, EligibilityReport, code_value, raw_phone,
}
use whatsapp_bot.Services.Campaign.Stage.{
  get_template, variables_of, decided_status, decided_reason, count_decision, stage_contact,
  stage_phone, stage_row, stage_rows, stage_recipients,
}

-- The sum of the counts by code.
abbrev pub sum_of : List (String × ℕ) → ℕ
sum_of [] = 0
sum_of ((code, n) ∷ rest) = n + sum_of rest

-- After some rows, every row is counted once, and every rejected row under one code.
pub record IsBalanced (rows : ℕ) (t : Tally) : Type 0 where
  pub counted : t.eligible + t.rejected ≡ rows
  pub explained : sum_of t.rejections ≡ t.rejected

sum_of-bump :
    (code : String) (stats : List (String × ℕ)) → sum_of (bump code stats) ≡ sum_of stats + 1
sum_of-bump code [] = omega arith
sum_of-bump code ((key, n) ∷ rest) = ground (arith, sum_of-bump code rest)

reject-IsBalanced :
    (n : ℕ) (code : String) (t : Tally) → IsBalanced n t → IsBalanced (n + 1) (reject code t)
reject-IsBalanced n code t b = record {
  counted = omega (arith, b.counted);
  explained = omega (arith, b.explained, sum_of-bump code t.rejections);
}

count_decision-IsBalanced :
    (n : ℕ) (d : EligibilityDecision) (t : Tally)
    → IsBalanced n t
    → IsBalanced (n + 1) (count_decision d t)
count_decision-IsBalanced n d t b = elim (Bool-cases d.allowed) [
  | inl passed ↦
      rw passed
        (record { counted = omega (arith, b.counted); explained = omega (arith, b.explained) })
  | inr denied ↦ rw denied (reject-IsBalanced n (code_value d.code) t b)
]

module _ (business : BusinessConfig) (bot : BotConfig) (host : Host)
    (templates : List TemplateDefinition) where
  module _ (campaign : Campaign) (template : TemplateDefinition) (moment : ℕ) where
    stage_contact-IsBalanced :
        (n : ℕ) (row : RecipientRow) (c : Contact) (t : Tally) (w : World)
        → IsBalanced n t
        → Returns
            (IsBalanced (n + 1))
            (stage_contact business bot host templates campaign template moment row c t w)
    unfolding stage_contact
    stage_contact-IsBalanced n row c t w b =
        Returns-bind (IsBalanced (n + 1))
          (check_eligibility business bot c (some template) moment false) _ w
          λ d w'.
            Returns-bind (IsBalanced (n + 1))
              (create_recipient campaign.id c.id (decided_status d) (variables_of host row)
                (decided_reason host d))
              _ w' λ r w''. count_decision-IsBalanced n d t b

    stage_phone-IsBalanced :
        (n : ℕ) (row : RecipientRow) (t : Tally) (phone : Option NormalisedPhone) (w : World)
        → IsBalanced n t
        → Returns
            (IsBalanced (n + 1))
            (stage_phone business bot host templates campaign template moment row t phone w)
    unfolding stage_phone recipient_exists
    stage_phone-IsBalanced n row t none w b = reject-IsBalanced n "invalid_phone" t b
    stage_phone-IsBalanced n row t (some phone) w b =
        Returns-bind (IsBalanced (n + 1)) (get_or_create_contact _ _ _ _ _ _) _ w λ found w'.
          elim (Bool-cases (any (is_recipient campaign.id found.0.id) w'.recipients)) [
            | inl there ↦ rw there (reject-IsBalanced n "already_in_campaign" t b)
            | inr absent ↦ rw absent (stage_contact-IsBalanced n row found.0 t w' b)
          ]

    stage_row-IsBalanced :
        (n : ℕ) (row : RecipientRow) (t : Tally) (w : World)
        → IsBalanced n t
        → Returns
            (IsBalanced (n + 1))
            (stage_row business bot host templates campaign template moment row t w)
    unfolding stage_row
    stage_row-IsBalanced n row t w b = elim (Bool-cases (is_blank (raw_phone row))) [
      | inl blank ↦ rw blank (reject-IsBalanced n "missing_phone" t b)
      | inr given ↦
          rw given (stage_phone-IsBalanced n row t (host.normalise_phone (raw_phone row)) w b)
    ]

    stage_rows-IsBalanced :
        (n m : ℕ) (rows : List RecipientRow) (t : Tally) (w : World)
        → n + length rows ≡ m
        → IsBalanced n t
        → Returns
            (IsBalanced m)
            (stage_rows business bot host templates campaign template moment rows t w)
    unfolding stage_rows
    stage_rows-IsBalanced n m [] t w e b = record {
      counted = omega (arith, b.counted);
      explained = b.explained;
    }
    stage_rows-IsBalanced n m (row ∷ rows) t w e b =
        Returns-then (IsBalanced (n + 1)) (IsBalanced m)
          (stage_row business bot host templates campaign template moment row t)
          (stage_rows business bot host templates campaign template moment rows) w
          (stage_row-IsBalanced n row t w b)
          λ t' w' b'. stage_rows-IsBalanced (n + 1) m rows t' w' (omega arith) b'

  -- A staging that returns counts every row of the import: the total is the number of rows, the
  -- eligible and the rejected make up the total, and the counts by rejection code make up the
  -- rejected.
  pub stage_recipients-IsBalanced :
      (campaign : Campaign) (rows : List RecipientRow) (now : Option ℕ) (w : World)
      {report : EligibilityReport} {w' : World}
      → stage_recipients business bot host templates campaign rows now w ≡ (ok report, w')
      → (report.total_recipients ≡ length rows) × IsBalanced report.total_recipients report.tally
  unfolding stage_recipients
  stage_recipients-IsBalanced campaign rows now w done =
      let P : EligibilityReport → Type 0 =
        λ r. (r.total_recipients ≡ length rows) × IsBalanced r.total_recipients r.tally in
      let all : Returns P (stage_recipients business bot host templates campaign rows now w) =
        Returns-bind P (get_template templates campaign.template_name) _ w λ template w1.
          Returns-then (IsBalanced (length rows)) P
            (stage_rows business bot host templates campaign template (or_now now w1.now) rows
              (record { eligible = 0; rejected = 0; rejections = [] }))
            _ w1
            (stage_rows-IsBalanced campaign template (or_now now w1.now) 0 (length rows) rows
              (record { eligible = 0; rejected = 0; rejections = [] }) w1 (omega arith)
              (record { counted = omega arith; explained = omega arith }))
            λ t w2 b. Returns-bind P (refresh_counters campaign) _ w2 λ c w3. (refl, b) in
      rw done at all
