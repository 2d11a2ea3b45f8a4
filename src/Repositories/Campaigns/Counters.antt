-- ===== src/Repositories/Campaigns/Counters.antt =====
-- The counters of a campaign against the rows of its recipients.
use whatsapp_bot.Prelude.{ℕ, ◌+◌, ◌≤◌, ◌≡◌, refl, List, [], ◌∷◌, arith, count, nat_eq}
use whatsapp_bot.Domain.Models.{Campaign, CampaignRecipient}
use whatsapp_bot.Store.Rows.{put}
use whatsapp_bot.Store.Session.{World, ok}
use whatsapp_bot.Repositories.Campaigns.{
  of_campaign, sum_of_counts, with_counters, refresh_counters,
}

-- Every recipient has exactly one of the statuses.
sum_of_counts-total :
    (id : ℕ) (rows : List CampaignRecipient) → sum_of_counts id rows ≡ count (of_campaign id) rows
sum_of_counts-total id [] = omega arith
sum_of_counts-total id (r ∷ rs) = ground (arith, sum_of_counts-total id rs)

-- After a refresh the total is the number of the campaign's recipient rows, and the counters that
-- are shown never add up to more.
pub refresh_counters_total :
    (c : Campaign) (w : World)
    → let (_, w') = refresh_counters c w in
      let c' = with_counters c w.recipients in
      (refresh_counters c w).0 ≡ ok c'
      × (w'.campaigns ≡ put (λ r. r.id) c' w.campaigns)
      × (c'.total ≡ count (of_campaign c.id) w.recipients)
      × (c'.eligible + c'.rejected + c'.sent + c'.delivered + c'.read + c'.failed ≤ c'.total)
unfolding refresh_counters
refresh_counters_total c w = (refl, refl, sum_of_counts-total c.id w.recipients, omega arith)
