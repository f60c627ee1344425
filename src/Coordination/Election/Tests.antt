-- ===== src/Coordination/Election/Tests.antt =====
-- A node that registers a callback, starts and is elected.
use designate_private.Prelude.{true, false, [], ◌∷◌, ◌≡◌, refl, arith}
use designate_private.Coordination.Election.{
  Election, init, start, stop, done, on_elected_leader, watch_elected_as_leader, Step, Reach,
}
use designate_private.Coordination.Election.Leader.{IsSound, Reach-IsSound}

abbrev elected_node : Election
elected_node = on_elected_leader (start (watch_elected_as_leader 7 (init true)))

elected_node_called : elected_node.called ≡ 7 ∷ []
unfolding on_elected_leader start watch_elected_as_leader
elected_node_called = refl

elected_node-Reach : Reach (init true) elected_node
unfolding start watch_elected_as_leader
elected_node-Reach =
    Reach.next
      (Reach.next (Reach.next Reach.here (Step.watched 7 (init true)))
        (Step.started (watch_elected_as_leader 7 (init true)) refl))
      (Step.elected (start (watch_elected_as_leader 7 (init true))) (omega arith))

Reach-IsSound_example : IsSound true elected_node
Reach-IsSound_example = Reach-IsSound true elected_node-Reach

-- A node that is started twice and stopped once is not started, but the coordinator still has a hook
-- for it, so it may be elected and lead.
hook_left_test :
    stop (start (start (init true))) ≡ done (record (init true) { started = false; hooks = 1 })
unfolding start stop
hook_left_test = refl
