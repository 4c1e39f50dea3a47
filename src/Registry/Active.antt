-- ===== src/Registry/Active.antt =====
-- What a promoted experiment of a valid registry has behind it.
use evolvable_user_memory.Base.{◌≡◌, map, some, nat_eq, ◌≤◌}
use evolvable_user_memory.Base.Dict.{get}
use evolvable_user_memory.Common.{Uuid}
use evolvable_user_memory.Evolution.Experiment.{EvolutionExperiment}
use evolvable_user_memory.Evolution.Stages.{height}
use evolvable_user_memory.Registry.State.{Registry, experiment_transition_history}
use evolvable_user_memory.Registry.Valid.{IsValid, path_to, stage_of, Follows-path_to}

-- In a valid registry the stored history of an experiment that is, or still can be, promoted holds
-- one transition for each stage from the proposal up to its own, in order and nothing else.
pub experiment_transition_history-path_to :
    (r : Registry) (i : Uuid) (e : EvolutionExperiment)
    → IsValid r
    → get i r.experiments ≡ some e
    → 1 ≤ height e.stage
    → map stage_of (experiment_transition_history i r) ≡ path_to e.stage
unfolding experiment_transition_history
experiment_transition_history-path_to r i e valid found up =
    let t = valid.tracked i e found in rw t.stored (Follows-path_to t.follows up)
