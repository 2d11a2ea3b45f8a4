-- ===== src/Repositories/Messages/Delivery.antt =====
-- The delivery status of a message over a sequence of status webhooks.
use whatsapp_bot.Prelude.{
  ℕ, ◌≡◌, String, Bool, false, Option, some, List, [], ◌∷◌, ◌&&◌, ◌||◌, not, any, arith, All, leb,
  ◌==◌, if◌then◌else◌, ◌∙◌, ap,
}
use whatsapp_bot.Domain.Enums.{DeliveryStatus, delivery_status_eq}
use whatsapp_bot.Domain.Models.{Message}
use whatsapp_bot.Repositories.Messages.{rank, is_terminal, or_queued, apply_status}

-- One status webhook for a message.
pub record StatusEvent : Type 0 where
  pub status : DeliveryStatus
  pub code : Option ℕ
  pub detail : Option String
  pub moment : ℕ

abbrev pub receive : List StatusEvent → Message → Message
receive [] m = m
receive (e ∷ es) m = receive es (apply_status m e.status e.code e.detail e.moment)

-- The stages of a delivery; an accepted message counts as sent.
abbrev pub is_read : DeliveryStatus → Bool
is_read s = s == DeliveryStatus.read

abbrev pub is_delivered : DeliveryStatus → Bool
is_delivered s = s == DeliveryStatus.delivered

abbrev pub is_sent : DeliveryStatus → Bool
is_sent s = s == DeliveryStatus.sent || s == DeliveryStatus.accepted

-- Whether a stage is where the message began or is reported by one of the webhooks.
abbrev pub seen : (DeliveryStatus → Bool) → Message → List StatusEvent → Bool
seen stage m es = stage (or_queued m.delivery_status) || any (λ e. stage e.status) es

-- The last stage is the furthest of those seen.
pub record IsFurthest (m : Message) (es : List StatusEvent) (last : DeliveryStatus) : Type 0 where
  pub at_read : is_read last ≡ seen is_read m es
  pub at_delivered : is_delivered last ≡ (seen is_delivered m es && not (seen is_read m es))
  pub at_sent :
      is_sent last ≡ (seen is_sent m es && not (seen is_delivered m es) && not (seen is_read m es))

-- The further of two statuses, by their rank.
abbrev next : DeliveryStatus → DeliveryStatus → DeliveryStatus
next s t = if leb (rank s) (rank t) then t else s

record IsNext (s t last : DeliveryStatus) : Type 0 where
  pub at_read : is_read last ≡ (is_read s || is_read t)
  pub at_delivered :
      is_delivered last ≡ ((is_delivered s || is_delivered t) && not (is_read s || is_read t))
  pub at_sent : is_sent last ≡ (
      (is_sent s || is_sent t)
      && not (is_delivered s || is_delivered t)
      && not (is_read s || is_read t))

next-IsNext : (s t : DeliveryStatus) → is_terminal t ≡ false → IsNext s t (next s t)
next-IsNext s t h = record {
  at_read = ground arith;
  at_delivered = ground arith;
  at_sent = ground arith;
}

apply_status-next :
    (m : Message) (e : StatusEvent)
    → is_terminal e.status ≡ false
    → or_queued (apply_status m e.status e.code e.detail e.moment).delivery_status
      ≡ next (or_queued m.delivery_status) e.status
unfolding apply_status
apply_status-next m e h = ground arith

-- The equations of one step and of the rest make those of the whole, with `r`, `d` and `s` for the
-- three stages.
read_lem :
    (last r' r0 r1 more : Bool)
    → last ≡ (r' || more)
    → r' ≡ (r0 || r1)
    → last ≡ (r0 || (r1 || more))
read_lem last r' r0 r1 more h step = ground arith

delivered_lem :
    (last r' r0 r1 rs d' d0 d1 ds : Bool)
    → last ≡ ((d' || ds) && not (r' || rs))
    → r' ≡ (r0 || r1)
    → d' ≡ ((d0 || d1) && not (r0 || r1))
    → last ≡ ((d0 || (d1 || ds)) && not (r0 || (r1 || rs)))
delivered_lem last r' r0 r1 rs d' d0 d1 ds h r_step d_step = ground arith

sent_lem :
    (last r' r0 r1 rs d' d0 d1 ds s' s0 s1 ss : Bool)
    → last ≡ ((s' || ss) && not (d' || ds) && not (r' || rs))
    → r' ≡ (r0 || r1)
    → d' ≡ ((d0 || d1) && not (r0 || r1))
    → s' ≡ ((s0 || s1) && not (d0 || d1) && not (r0 || r1))
    → last ≡ ((s0 || (s1 || ss)) && not (d0 || (d1 || ds)) && not (r0 || (r1 || rs)))
sent_lem last r' r0 r1 rs d' d0 d1 ds s' s0 s1 ss h r_step d_step s_step = ground arith

-- Whatever order the status webhooks of a message come in, as long as none reports a failure or a
-- deletion: the message is read at the end if it was at the beginning or one of them says so; if
-- none does, it is delivered if one says so or it was; and else it is sent if one says so or it was.
pub receive-IsFurthest :
    (es : List StatusEvent) (m : Message)
    → All (λ e. is_terminal e.status ≡ false) es
    → IsFurthest m es (or_queued (receive es m).delivery_status)
receive-IsFurthest [] m h = record {
  at_read = ground arith;
  at_delivered = ground arith;
  at_sent = ground arith;
}
receive-IsFurthest (e ∷ es) m h =
    let step = next-IsNext (or_queued m.delivery_status) e.status h.0 in
    let status = apply_status-next m e h.0 in
    let rest = receive-IsFurthest es (apply_status m e.status e.code e.detail e.moment) h.1 in
    let read = ap is_read status ∙ step.at_read in
    let delivered = ap is_delivered status ∙ step.at_delivered in
    let sent = ap is_sent status ∙ step.at_sent in
    record {
      at_read = read_lem _ _ _ _ _ rest.at_read read;
      at_delivered = delivered_lem _ _ _ _ _ _ _ _ _ rest.at_delivered read delivered;
      at_sent = sent_lem _ _ _ _ _ _ _ _ _ _ _ _ _ rest.at_sent read delivered sent;
    }

-- A failure does not stick: whatever status is reported next replaces it, `sent` and `queued` too.
pub apply_status-failed :
    (m : Message) (e : StatusEvent)
    → m.delivery_status ≡ some DeliveryStatus.failed
    → (apply_status m e.status e.code e.detail e.moment).delivery_status ≡ some e.status
unfolding apply_status
apply_status-failed m e h = ground arith
