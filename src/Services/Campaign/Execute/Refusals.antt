-- ===== src/Services/Campaign/Execute/Refusals.antt =====
-- Campaigns that are not run.
use whatsapp_bot.Prelude.{
  ◌≡◌, refl, ℕ, Bool, true, false, List, Option, none, some, find, ◌==◌, string_eq, not, arith, inl,
  inr, Bool-cases, Option-cases, ◌||◌,
}
use whatsapp_bot.Domain.Config.{BotConfig, TemplateDefinition, is_sendable}
use whatsapp_bot.Domain.Models.{Campaign}
use whatsapp_bot.Store.Session.{World}
use whatsapp_bot.Services.Campaign.Data.{Host}
use whatsapp_bot.Repositories.Campaigns.{set_campaign_status, refresh_counters, save_campaign}
use whatsapp_bot.Services.Campaign.Stage.{get_template}
use whatsapp_bot.Services.Campaign.Execute.{execute_campaign, is_finished, dry_run_of}

-- The template that the registry lists first under the name may be sent.
abbrev pub is_approved : Option TemplateDefinition → Bool
is_approved none = false
is_approved (some t) = is_sendable t

abbrev pub can_run : List TemplateDefinition → Campaign → Bool → Bool
can_run templates c dry_run = not (
    dry_run
    || is_finished c.status
    || not (is_approved (find (λ t. t.name == c.template_name) templates)))

-- A dry run, a campaign that is completed, cancelled or running, and a campaign whose template is
-- unregistered or unapproved send nothing.
pub execute_campaign-silent :
    (bot : BotConfig) (host : Host) (templates : List TemplateDefinition) (fuel : ℕ) (c : Campaign)
    (dry_run : Bool) (w : World)
    → can_run templates c dry_run ≡ false
    → (execute_campaign bot host templates fuel c dry_run w).1.outbox ≡ w.outbox
unfolding execute_campaign dry_run_of refresh_counters save_campaign set_campaign_status
    get_template
execute_campaign-silent bot host templates fuel c true w h = refl
execute_campaign-silent bot host templates fuel c false w h =
    elim (Bool-cases (is_finished c.status)) [
      | inl finished ↦ rw finished refl
      | inr startable ↦ elim (Option-cases (find (λ t. t.name == c.template_name) templates)) [
        | inl unknown ↦ rw (startable, unknown) refl
        | inr (t, found) ↦ elim (Bool-cases (is_sendable t)) [
          | inl approved ↦ absurd (ground (arith, startable, found, approved))
          | inr unapproved ↦ rw (startable, found, unapproved) refl
        ]
      ]
    ]
