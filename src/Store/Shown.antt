-- ===== src/Store/Shown.antt =====
-- Which events `timeline` of src/store.rs returns.
use opencord.Base.{
  ℕ, ◌≡◌, sym, subst, true, ◌==◌, List, [], ◌∷◌, All, All-append, All-take, All-filterb-true, ok,
  bind-inv, or_error-inv, ok-injective, min,
}
use mathlib.Core.List.{reverse, reverse-cons}
use opencord.Model.{Key, ChannelId, EventEnvelope, TimelineEntry}
use opencord.Crates.{Crates}
use opencord.Crypto.{validate_and_open_event}
use opencord.Store.{Store, EventRow, event_from_row}
use opencord.Store.Order.{All-order_by}
use opencord.Store.Events.{timeline, timeline_rows, open_rows, group_of_channel}

All-reverse : {A : Type 0} (P : A → Type 0) (xs : List A) → All P xs → All P (reverse xs)
All-reverse P [] h = tt
All-reverse P (x ∷ xs) h =
    subst (All P) (sym (reverse-cons x xs))
      (All-append P (reverse xs) (x ∷ []) (All-reverse P xs h.1) (h.0, tt))

module _ (c : Crates) where
  open_rows-All :
      (P : EventEnvelope → Type 0) (secret : Key) (s : Store) (rows : List EventRow)
      {entries : List TimelineEntry}
      → All (λ row. P (event_from_row row)) rows
      → open_rows c secret s rows ≡ ok entries
      → All (λ e. P e.event) entries
  unfolding open_rows
  open_rows-All P secret s [] h k = subst (All (λ e. P e.event)) (ok-injective k) tt
  open_rows-All P secret s (row ∷ rows) h k =
      bind-inv (validate_and_open_event c (event_from_row row) secret) _ k λ payload _ k1.
        bind-inv (open_rows c secret s rows) _ k1 λ rest opened k2.
          subst (All (λ e. P e.event)) (ok-injective k2)
            (h.0, open_rows-All P secret s rows h.1 opened)

  -- The entries are of the channel.
  pub timeline-All :
      (id : ChannelId) (limit : ℕ) (s : Store) {entries : List TimelineEntry}
      → timeline c id limit s ≡ ok entries
      → All (λ e. (e.event.header.channel_id == id) ≡ true) entries
  unfolding timeline timeline_rows event_from_row
  timeline-All id limit s h = or_error-inv (group_of_channel id s) _ _ h λ g _ h1.
      bind-inv (open_rows c g.secret s (timeline_rows id limit s)) _ h1 λ entries opened h2.
        subst (All (λ e. (e.event.header.channel_id == id) ≡ true)) (ok-injective h2) (
          All-reverse _ entries (
            open_rows-All (λ e. (e.header.channel_id == id) ≡ true) g.secret s
              (timeline_rows id limit s)
              (All-take _ (min limit 2000) _
                (All-order_by _ _ _ (All-filterb-true (λ e. e.channel_id == id) s.events)))
              opened))
