-- ===== src/Services/Campaign/Data.antt =====
-- The data that app/services/campaign_service.py works on, and what it calls outside the program.
use whatsapp_bot.Prelude.{
  ℕ, ◌+◌, String, Bool, true, false, Option, List, [], ◌∷◌, ◌&&◌, ◌||◌, ltb, codes, or_text, ◌==◌,
  nat_eq, string_eq, if◌then◌else◌,
}
use whatsapp_bot.Domain.Enums.{CampaignStatus}
use whatsapp_bot.Domain.Phone.{NormalisedPhone}
use whatsapp_bot.Domain.Rules.Eligibility.{Code}
use whatsapp_bot.Store.Session.{Outgoing, Result}

-- What the service calls: the phone library, the cipher, the JSON parser, the sentences of
-- decisions and of an automatic pause, and the WhatsApp API, whose answer to a call depends on the
-- calls before it.
pub record Host : Type 0 where
  pub normalise_phone : String → Option NormalisedPhone
  pub encrypt : String → String
  pub decrypt : String → Option String
  pub json_loads : String → Option (List (String × String))
  pub reason_text : Code → String
  pub pause_text : ℕ → ℕ → String
  pub answer : List Outgoing → Outgoing → Result String

-- A row of the import; a key that is missing is `none`.
pub record RecipientRow : Type 0 where
  pub phone_e164 : Option String
  pub phone : Option String
  pub first_name : Option String
  pub locale : Option String
  pub template_variables : List (String × String)
  pub template_variables_json : Option String

-- `rejections`, a dict from a code to a count.
abbrev pub bump : String → List (String × ℕ) → List (String × ℕ)
bump code [] = (code, 1) ∷ []
bump code ((key, n) ∷ rest) = if key == code then (key, n + 1) ∷ rest else (key, n) ∷ bump code rest

pub record Tally : Type 0 where
  pub eligible : ℕ
  pub rejected : ℕ
  pub rejections : List (String × ℕ)

abbrev pub reject : String → Tally → Tally
reject code t = record t { rejected = t.rejected + 1; rejections = bump code t.rejections }

pub record EligibilityReport : Type 0 where
  pub total_recipients : ℕ
  pub tally : Tally

abbrev pub code_value : Code → String
code_value Code.ok = "ok"
code_value Code.suppressed = "suppressed"
code_value Code.opted_out = "opted_out"
code_value Code.campaigns_disabled = "campaigns_disabled"
code_value Code.duplicate = "duplicate"
code_value Code.no_template = "no_template"
code_value Code.template_not_approved = "template_not_approved"
code_value Code.no_opt_in = "no_opt_in"
code_value Code.wrong_consent_purpose = "wrong_consent_purpose"
code_value Code.unsupported_language = "unsupported_language"
code_value Code.quiet_hours = "quiet_hours"

-- `str(row.get("phone_e164") or row.get("phone") or "")`
abbrev pub raw_phone : RecipientRow → String
raw_phone row = or_text row.phone_e164 (or_text row.phone "")

-- The order of Python on texts: by code points.
abbrev pub text_leb : List ℕ → List ℕ → Bool
text_leb [] ys = true
text_leb (x ∷ xs) [] = false
text_leb (x ∷ xs) (y ∷ ys) = ltb x y || x == y && text_leb xs ys

abbrev pub insert_sorted : (String × String) → List (String × String) → List (String × String)
insert_sorted p [] = p ∷ []
insert_sorted p (q ∷ rest) =
    let later = insert_sorted p rest in
    if text_leb (codes p.0) (codes q.0) then p ∷ q ∷ rest else q ∷ later

-- `[str(v) for k, v in sorted(variables.items())]`
abbrev pub body_variables : List (String × String) → List String
body_variables variables = values (sorted variables)
  where
    sorted : List (String × String) → List (String × String)
    sorted [] = []
    sorted (p ∷ rest) = insert_sorted p (sorted rest)

    values : List (String × String) → List String
    values [] = []
    values ((k, v) ∷ rest) = v ∷ values rest

-- What a run has sent and failed to send.
pub record Run : Type 0 where
  pub sent_count : ℕ
  pub failed_count : ℕ

pub record CampaignExecutionSummary : Type 0 where
  pub campaign_id : ℕ
  pub campaign_name : String
  pub status : CampaignStatus
  pub total : ℕ
  pub sent : ℕ
  pub failed : ℕ
  pub auto_paused : Bool
  pub pause_reason : Option String
