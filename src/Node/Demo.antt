-- ===== src/Node/Demo.antt =====
-- `seed_demo` of src/main.rs: the group, the channels and the messages of a demonstration.
use opencord.Base.{ℕ, ◌+◌, List, [], ◌∷◌, Option, ℤ, Result, ok, err}
use opencord.Text.{Text, codes}
use opencord.Model.{Nonce, ChannelId, text}
use opencord.Crates.{Crates}
use opencord.Node.{Node, create_group, create_channel, send}

-- The random values and the clock that the calls read, one after the other.
pub record Draws : Type 0 where
  pub id : ℕ → ℕ
  pub nonce : ℕ → Option Nonce
  pub clock : ℕ → ℤ

abbrev pub bodies : List Text
bodies =
    codes "Welcome! This is the general channel."
    ∷ codes "I left a few protocol notes in #architecture."
    ∷ codes "Want to test voice after everyone joins?"
    ∷ []

-- `?` on a call of the node
abbrev pub and_then :
    {A B : Type 0} → Result A × Node → (A → Node → Result B × Node) → Result B × Node
and_then (ok a, n) f = f a n
and_then (err e, n) f = (err e, n)

module _ (c : Crates) (draws : Draws) where
  unfoldable pub send_bodies : ℕ → ChannelId → List Text → Node → Result (Unit {0}) × Node
  send_bodies at channel [] n = (ok tt, n)
  send_bodies at channel (body ∷ rest) n =
      and_then
        (send c channel (text body) (draws.nonce at) (draws.clock at) (draws.clock (at + 1)) n)
        (λ event n1. send_bodies (at + 2) channel rest n1)

  -- `seed_demo`
  unfoldable pub seed_demo : Node → Result (Unit {0}) × Node
  unfolding send_bodies
  seed_demo n =
      and_then
        (create_group c (codes "Opencord Lab") (draws.id 0) (draws.id 1) (draws.id 2)
          (draws.clock 0) n)
        (λ made n1.
          and_then (create_channel c made.0.id (codes "architecture") (draws.id 3) n1)
            (λ architecture n2.
              and_then (create_channel c made.0.id (codes "random") (draws.id 4) n2)
                (λ random n3. send_bodies 1 made.1.id bodies n3)))
