-- ===== src/UseCase/Laws.antt =====
-- The use cases under wellcoordination/benchmark/ whose conflict relations meet the protocol's demands.
use optimistic_replication.UseCase.{IsConflictAware}
use optimistic_replication.UseCase.Set.{set_case}
use optimistic_replication.UseCase.Set.Laws.{set_case-IsConflictAware}
use optimistic_replication.UseCase.Movie.{movie_case}
use optimistic_replication.UseCase.Movie.Laws.{movie_case-IsConflictAware}
use optimistic_replication.UseCase.Courseware.{courseware_case}
use optimistic_replication.UseCase.Courseware.Laws.{courseware_case-IsConflictAware}
use optimistic_replication.UseCase.Project.{project_case}
use optimistic_replication.UseCase.Project.Laws.{project_case-IsConflictAware}
use optimistic_replication.UseCase.Ycsb.{ycsb_case}
use optimistic_replication.UseCase.Ycsb.Laws.{ycsb_case-IsConflictAware}

-- In the use cases Set, Movie, Courseware, Project and Ycsb the remote relation orders each two calls that
-- do not commute on the stable state, a call that must stand before another has none that must stand before
-- it, and the local relation finds every conflict that the remote one finds.
pub cases-IsConflictAware :
    IsConflictAware set_case
    × IsConflictAware movie_case
    × IsConflictAware courseware_case
    × IsConflictAware project_case
    × IsConflictAware ycsb_case
cases-IsConflictAware = (
  set_case-IsConflictAware, movie_case-IsConflictAware, courseware_case-IsConflictAware,
  project_case-IsConflictAware, ycsb_case-IsConflictAware,
)
