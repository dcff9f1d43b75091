-- ===== src/UseCase/Ycsb/Laws.antt =====
-- ycsb.hpp: its object is the replicated set, so that its conflict relation serves it as well.
use optimistic_replication.UseCase.{IsConflictAware}
use optimistic_replication.UseCase.Set as Set
use optimistic_replication.UseCase.Set.Laws.{set_case-IsConflictAware}
use optimistic_replication.UseCase.Ycsb as Ycsb
use optimistic_replication.UseCase.Ycsb.{ycsb_case}

-- For the YCSB object, calls that the remote relation does not order commute; a call that must stand
-- before another has none that must stand before it; and the local test finds every conflict.
pub ycsb_case-IsConflictAware : IsConflictAware ycsb_case
unfolding Set.update_current_state Set.update_stable_state Set.fast_is_reachable_local
    Set.fast_is_reachable_remote Set.compare_vector_clocks Set.locally_permissibility
    Ycsb.update_current_state Ycsb.update_stable_state Ycsb.fast_is_reachable_local
    Ycsb.fast_is_reachable_remote Ycsb.compare_vector_clocks Ycsb.locally_permissibility
ycsb_case-IsConflictAware = set_case-IsConflictAware
