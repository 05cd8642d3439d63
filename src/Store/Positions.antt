-- ===== src/Store/Positions.antt =====
-- The positions that `create_channel` of src/store.rs gives.
use opencord.Base.{
  ℕ, ◌<◌, ◌≡◌, ◌==◌, ◌&&◌, true, false, List, [], ◌∷◌, All, any, filterb, ok, err, arith, leb,
  ensure-inv, bind-inv, ok-injective, ap, subst, channel_position_overflow, All-map,
}
use opencord.Text.{Text}
use opencord.Model.{GroupId, ChannelId, Channel}
use opencord.Crates.{Crates}
use opencord.Store.{Store, insert_channel, u32_max}
use opencord.Store.Groups.{next_position, create_channel}

lt-next_position :
    (g : GroupId) (chs : List Channel)
    → All
        (λ ch.
          (ch.group_id == g) ≡ true
          → ch.position < next_position (filterb (λ d. d.group_id == g) chs))
        chs
unfolding next_position
lt-next_position g [] = tt
lt-next_position g (ch ∷ chs) = (
  λ mine. ground arith,
  All-map _ _ chs (λ d k mine. ground (arith, k mine)) (lt-next_position g chs),
)

full-next_position :
    (g : GroupId) (n : ℕ) (chs : List Channel)
    → any (λ ch. ch.group_id == g && ch.position == n) chs ≡ true
    → n < next_position (filterb (λ d. d.group_id == g) chs)
unfolding next_position
full-next_position g n (ch ∷ chs) h = ground (arith, full-next_position g n chs)
full-next_position g n [] h = absurd (cc)

-- A channel that is created stands below every channel of its group.
pub create_channel-lt :
    (c : Crates) (g : GroupId) (name : Text) (id : ChannelId) (s : Store) {ch : Channel}
    {s' : Store}
    → create_channel c g name id s ≡ ok (ch, s')
    → All (λ d. (d.group_id == g) ≡ true → d.position < ch.position) s.channels
unfolding create_channel
create_channel-lt c g name id s {ch} h =
    ensure-inv (leb (next_position (filterb (λ d. d.group_id == g) s.channels)) u32_max) _ _ h
      λ fits h1. bind-inv (insert_channel _ s) _ h1 λ s1 written h2.
        subst (λ n. All (λ d. (d.group_id == g) ≡ true → d.position < n) s.channels)
          (ap (λ q. q.0.position) (ok-injective h2)) (lt-next_position g s.channels)

-- Once a group has a channel at the last position, which a member can send, no channel can be
-- created in it.
pub create_channel-overflow :
    (c : Crates) (g : GroupId) (name : Text) (id : ChannelId) (s : Store)
    → any (λ ch. ch.group_id == g && ch.position == u32_max) s.channels ≡ true
    → create_channel c g name id s ≡ err channel_position_overflow
unfolding create_channel
create_channel-overflow c g name id s h =
    let above = full-next_position g u32_max s.channels h in
    let refused : leb (next_position (filterb (λ d. d.group_id == g) s.channels)) u32_max ≡ false =
      ground arith in
    rw refused
