-- ===== src/Repositories/Consents/Switch.antt =====
-- The pause switch reads what was written.
use whatsapp_bot.Prelude.{
  ℕ, ◌<◌, ◌≡◌, refl, String, Bool, false, Option, none, some, List, [], ◌∷◌, ◌++◌, where_, All, inl,
  inr, ◌==◌, nat_eq, string_eq, text_eq_refl, if◌then◌else◌,
}
use whatsapp_bot.Domain.Models.{BotState}
use whatsapp_bot.Store.Rows.{AtMostOne-cases, where_-append, where_-head}
use whatsapp_bot.Store.Unique.{AtMostOne, AtMostOne-append, where_-fresh, where_-put}
use whatsapp_bot.Store.Session.{World, ok}
use whatsapp_bot.Repositories.Consents.{set_paused, is_paused}

abbrev of_business : String → BotState → Bool
of_business b s = s.business_id == b

-- The constraints of the table.
pub record IsSwitchTable (rows : List BotState) (next_id : ℕ) : Type 0 where
  pub below : All (λ r. r.id < next_id) rows
  pub unique_id : (i : ℕ) → AtMostOne (λ r. r.id == i) rows
  pub once : (b : String) → AtMostOne (of_business b) rows

-- The row that `set_paused` writes.
abbrev written : BotState → Bool → Option String → Option String → ℕ → BotState
written s paused reason actor now = record s {
  paused = paused;
  pause_reason = if paused then reason else none;
  paused_by = if paused then actor else none;
  paused_at = if paused then some now else none;
}

-- Where the table's constraints hold, after the switch of a business is set, reading it returns
-- what was set, whether or not the business had a row before.
pub set_paused-is_paused :
    (b : String) (paused : Bool) (reason actor : Option String) (w : World)
    → IsSwitchTable w.bot_states w.next_id
    → (is_paused b (set_paused b paused reason actor w).1).0 ≡ ok paused
unfolding set_paused is_paused
set_paused-is_paused b paused reason actor w t =
    elim (AtMostOne-cases (where_ (of_business b) w.bot_states) (t.once b).bound) [
      | inl absent ↦
          let new : BotState = record {
            id = w.next_id;
            business_id = b;
            paused = false;
            pause_reason = none;
            paused_by = none;
            paused_at = none;
          } in
          let alone : where_ (of_business b) (w.bot_states ++ new ∷ []) ≡ new ∷ [] =
            rw (where_-append (of_business b) w.bot_states (new ∷ []), absent, text_eq_refl b)
              refl in
          let unique =
            AtMostOne-append (λ r. r.id == w.next_id) new w.bot_states (t.unique_id w.next_id)
              λ e. where_-fresh (λ r. r.id) w.next_id w.bot_states t.below in
          rw
            (
              absent,
              where_-put (λ r. r.id) (of_business b) new (written new paused reason actor w.now)
                  (w.bot_states ++ new ∷ []) alone unique.bound refl (text_eq_refl b),
            )
            refl
      | inr (s, found) ↦
          rw
            (
              found,
              where_-put (λ r. r.id) (of_business b) s (written s paused reason actor w.now)
                  w.bot_states found (t.unique_id s.id).bound refl
                  (where_-head (of_business b) w.bot_states found),
            )
            refl
    ]
