-- ===== src/Repositories/Campaigns.antt =====
-- app/repositories/campaigns.py: campaigns and their recipients.
pub mod Counters
use whatsapp_bot.Prelude.{
  ℕ, ◌+◌, String, Bool, true, false, Option, none, some, List, [], ◌∷◌, ◌++◌, ◌&&◌, ◌||◌, any,
  where_, take, count, length, ◌==◌, nat_eq, string_eq, clip, or_none, if◌then◌else◌,
}
use whatsapp_bot.Domain.Enums.{
  CampaignStatus, CampaignRecipientStatus, campaign_status_eq, campaign_recipient_status_eq,
}
use whatsapp_bot.Domain.Models.{Campaign, CampaignRecipient}
use whatsapp_bot.Repositories.Messages.{is_meta_id}
use whatsapp_bot.Store.Rows.{put}
use whatsapp_bot.Store.Session.{
  Db, World, M, Error, pure, raise, gets, scalar_one_or_none, modify_db, utcnow, fresh_id, ◌>>=◌,
  ◌>>◌,
}

unfoldable pub save_campaign : Campaign → M Campaign
save_campaign c = do
  modify_db (λ db. record db { campaigns = put (λ r. r.id) c db.campaigns })
  pure c

abbrev pub is_named : String → String → Campaign → Bool
is_named business_id name c = c.business_id == business_id && c.name == name

-- `CampaignRepository.create`; the table's constraint refuses a second campaign of the name.
unfoldable pub create_campaign_row : String → String → String → String → M Campaign
create_campaign_row business_id name template_name template_language = do
  taken ← gets (λ w. any (is_named business_id name) w.campaigns)
  id ← fresh_id
  correlation ← gets (λ w. w.correlation_id)
  let row : Campaign = record {
    id = id;
    business_id = business_id;
    name = name;
    template_name = template_name;
    template_language = template_language;
    status = CampaignStatus.draft;
    pause_reason = none;
    total = 0;
    eligible = 0;
    rejected = 0;
    sent = 0;
    delivered = 0;
    read = 0;
    failed = 0;
    started_at = none;
    completed_at = none;
    correlation_id = correlation;
  }
  if taken
      then raise Error.integrity
      else do modify_db (λ db. record db { campaigns = db.campaigns ++ row ∷ [] }); pure row

unfoldable pub get_campaign_by_name : String → String → M (Option Campaign)
get_campaign_by_name business_id name = do
  scalar_one_or_none (← gets (λ w. where_ (is_named business_id name) w.campaigns))

unfoldable pub get_campaign_by_id : String → ℕ → M (Option Campaign)
get_campaign_by_id business_id id = do
  scalar_one_or_none
      (← gets (λ w. where_ (λ c. c.business_id == business_id && c.id == id) w.campaigns))

abbrev pub or_time : Option ℕ → ℕ → Option ℕ
or_time none now = some now
or_time (some t) _ = some t

-- The attributes that `CampaignRepository.set_status` sets.
abbrev pub with_campaign_status : Campaign → Option String → ℕ → CampaignStatus → Campaign
with_campaign_status c reason now CampaignStatus.paused = record c {
  status = CampaignStatus.paused;
  pause_reason = reason;
}
with_campaign_status c reason now CampaignStatus.running = record c {
  status = CampaignStatus.running;
  pause_reason = none;
  started_at = or_time c.started_at now;
}
with_campaign_status c reason now CampaignStatus.completed = record c {
  status = CampaignStatus.completed;
  completed_at = some now;
}
with_campaign_status c reason now CampaignStatus.cancelled = record c {
  status = CampaignStatus.cancelled;
  completed_at = some now;
}
with_campaign_status c reason now CampaignStatus.failed = record c {
  status = CampaignStatus.failed;
  completed_at = some now;
}
with_campaign_status c reason now status = record c { status = status }

unfoldable pub set_campaign_status : Campaign → CampaignStatus → Option String → M Campaign
unfolding save_campaign
set_campaign_status c status reason = do
  now ← utcnow
  save_campaign (with_campaign_status c reason now status)

abbrev pub of_campaign : ℕ → CampaignRecipient → Bool
of_campaign campaign_id r = r.campaign_id == campaign_id

abbrev pub has_status : ℕ → CampaignRecipientStatus → CampaignRecipient → Bool
has_status campaign_id status r = of_campaign campaign_id r && r.status == status

-- The rows of a campaign with a status, as `GROUP BY status` counts them.
abbrev pub tally : ℕ → List CampaignRecipient → CampaignRecipientStatus → ℕ
tally campaign_id rows status = count (has_status campaign_id status) rows

abbrev pub sum_of_counts : ℕ → List CampaignRecipient → ℕ
sum_of_counts id rows =
    tally id rows CampaignRecipientStatus.pending
    + tally id rows CampaignRecipientStatus.eligible
    + tally id rows CampaignRecipientStatus.rejected
    + tally id rows CampaignRecipientStatus.queued
    + tally id rows CampaignRecipientStatus.sent
    + tally id rows CampaignRecipientStatus.delivered
    + tally id rows CampaignRecipientStatus.read
    + tally id rows CampaignRecipientStatus.failed
    + tally id rows CampaignRecipientStatus.skipped

abbrev pub with_counters : Campaign → List CampaignRecipient → Campaign
with_counters c rows = record c {
  total = sum_of_counts c.id rows;
  eligible =
      tally c.id rows CampaignRecipientStatus.eligible
      + tally c.id rows CampaignRecipientStatus.queued;
  rejected = tally c.id rows CampaignRecipientStatus.rejected;
  sent = tally c.id rows CampaignRecipientStatus.sent;
  delivered = tally c.id rows CampaignRecipientStatus.delivered;
  read = tally c.id rows CampaignRecipientStatus.read;
  failed = tally c.id rows CampaignRecipientStatus.failed;
}

unfoldable pub refresh_counters : Campaign → M Campaign
unfolding save_campaign
refresh_counters c = do rows ← gets (λ w. w.recipients); save_campaign (with_counters c rows)

unfoldable pub save_recipient : CampaignRecipient → M CampaignRecipient
save_recipient r = do
  modify_db (λ db. record db { recipients = put (λ x. x.id) r db.recipients })
  pure r

abbrev pub is_recipient : ℕ → ℕ → CampaignRecipient → Bool
is_recipient campaign_id contact_id r = r.campaign_id == campaign_id && r.contact_id == contact_id

-- The sentence of a rejection is known by its code; see the compliance gate.
unfoldable pub create_recipient :
    ℕ → ℕ → CampaignRecipientStatus → List (String × String) → Option String → M CampaignRecipient
create_recipient campaign_id contact_id status template_variables rejection_reason = do
  taken ← gets (λ w. any (is_recipient campaign_id contact_id) w.recipients)
  id ← fresh_id
  let row : CampaignRecipient = record {
    id = id;
    campaign_id = campaign_id;
    contact_id = contact_id;
    status = status;
    rejection_reason = rejection_reason;
    template_variables = template_variables;
    meta_message_id = none;
    error_code = none;
    error_detail = none;
    sent_at = none;
  }
  if taken
      then raise Error.integrity
      else do modify_db (λ db. record db { recipients = db.recipients ++ row ∷ [] }); pure row

unfoldable pub recipient_exists : ℕ → ℕ → M Bool
recipient_exists campaign_id contact_id =
    gets (λ w. any (is_recipient campaign_id contact_id) w.recipients)

unfoldable pub list_by_status : ℕ → CampaignRecipientStatus → ℕ → M (List CampaignRecipient)
list_by_status campaign_id status limit =
    gets (λ w. take limit (where_ (has_status campaign_id status) w.recipients))

unfoldable pub mark_sent : CampaignRecipient → String → M CampaignRecipient
unfolding save_recipient
mark_sent r meta_message_id = do
  now ← utcnow
  save_recipient (record r {
    status = CampaignRecipientStatus.sent;
    meta_message_id = some meta_message_id;
    sent_at = some now;
  })

-- `(error_detail or "")[:1000] or None`
abbrev pub detail_column : Option String → Option String
detail_column none = none
detail_column (some text) = or_none (clip 1000 text)

unfoldable pub mark_recipient_failed :
    CampaignRecipient → Option ℕ → Option String → M CampaignRecipient
unfolding save_recipient
mark_recipient_failed r error_code error_detail = save_recipient (record r {
  status = CampaignRecipientStatus.failed;
  error_code = error_code;
  error_detail = detail_column error_detail;
})

unfoldable pub set_recipient_status :
    CampaignRecipient → CampaignRecipientStatus → M CampaignRecipient
unfolding save_recipient
set_recipient_status r status = save_recipient (record r { status = status })

abbrev pub recipient_with_meta_id : ℕ → String → CampaignRecipient → Bool
recipient_with_meta_id campaign_id wanted r =
    r.campaign_id == campaign_id && is_meta_id wanted r.meta_message_id

unfoldable pub get_recipient_by_meta_id : ℕ → String → M (Option CampaignRecipient)
get_recipient_by_meta_id campaign_id meta_message_id = do
  scalar_one_or_none
      (← gets (λ w. where_ (recipient_with_meta_id campaign_id meta_message_id) w.recipients))
