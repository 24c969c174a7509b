-- ===== src/Examples/Outbox.antt =====
-- internal/repository/postgres/outbox.go on the small database.
use sso_go.Prelude.{
  ◌≡◌, ◌==◌, codes, true, false, none, some, [], ◌∷◌, find_where, count_where, arith, refl,
}
use sso_go.Repo.Outbox.{Sender, Delivery, publish_outbox}
use sso_go.Repo.Outbox.AtLeastOnce.{
  NothingLost, backlog, publish_outbox-NothingLost, publish_outbox-drains,
}
use sso_go.Examples.State.{at_time}

abbrev acks : Sender
acks _ = none

abbrev refuses : Sender
refuses _ = some (codes "down")

abbrev queue : Delivery
queue = record { world = at_time 10; acknowledged = [] }

-- the database fails after the first send
abbrev faulty : Delivery
faulty = record { world = record (at_time 10) { faults = false ∷ true ∷ [] }; acknowledged = [] }

publish_outbox-NothingLost_example :
    NothingLost (publish_outbox (codes "kafka") (acks ∷ refuses ∷ acks ∷ []) faulty)
unfolding find_where
publish_outbox-NothingLost_example =
    publish_outbox-NothingLost (codes "kafka") (acks ∷ refuses ∷ acks ∷ []) faulty refl

publish_outbox-drains_example :
    backlog (publish_outbox (codes "kafka") (acks ∷ acks ∷ []) queue) ≡ 0
unfolding count_where ◌==◌
publish_outbox-drains_example =
    publish_outbox-drains (codes "kafka") (acks ∷ acks ∷ []) queue refl
      ((λ _. refl), ((λ _. refl), tt)) refl (omega arith)
