-- ===== src/Tests/Objects.antt =====
-- The replicated objects.
use optimistic_replication.Prelude.{◌≡◌, refl, ◌≢◌, true, false, [], codes, eq_bytes, arith}
use optimistic_replication.Call.{Call, new_call}
use optimistic_replication.UseCase.Courseware as Courseware
use optimistic_replication.UseCase.Courseware.Laws.{enroll_lost}
use optimistic_replication.UseCase.Stack as Stack
use optimistic_replication.UseCase.Stack.Laws.{pushes_diverge}
use optimistic_replication.UseCase.Set.{set_to_string}
use optimistic_replication.UseCase.Project.{project_to_string}

abbrev enroll_3_4 : Call
enroll_3_4 = new_call (codes "Enroll") 3 4 0 0 1 1

enroll_ignored :
    (Courseware.update_current_state Courseware.initial enroll_3_4 ≡ Courseware.initial)
    × ((Courseware.update_stable_state Courseware.initial enroll_3_4).enroll 3 4 ≡ true)
unfolding eq_bytes
enroll_ignored = enroll_lost Courseware.initial Courseware.initial enroll_3_4 refl

abbrev push_5 : Call
push_5 = new_call (codes "Push") 5 0 0 0 1 1

abbrev push_6 : Call
push_6 = new_call (codes "Push") 6 0 0 0 2 1

pushes_diverge_example :
    (Stack.fast_is_reachable_remote push_5 push_6 ≡ false)
    × (Stack.fast_is_reachable_remote push_6 push_5 ≡ false)
    × (Stack.update_stable_state (Stack.update_stable_state [] push_5) push_6
        ≢ Stack.update_stable_state (Stack.update_stable_state [] push_6) push_5)
unfolding eq_bytes
pushes_diverge_example = pushes_diverge [] push_5 push_6 refl refl (omega arith)

-- The enumerations.
names : (set_to_string 1 ≡ codes "Remove") × (project_to_string 2 ≡ codes "WorksOn")
unfolding set_to_string project_to_string
names = (refl, refl)
