-- ===== src/Ecros/Skips/Cases.antt =====
-- ecros-movie.hpp, ecros-project.hpp and ecros-courseware.hpp: sets that are never filled again.
use optimistic_replication.Prelude.{◌≡◌, true, List, codes}
use optimistic_replication.Call.{Call}
use optimistic_replication.Ecros.{EcrosHandler, HashSet}
use optimistic_replication.Ecros.Set.{is_empty}
use optimistic_replication.Ecros.Skips.{issue_all, stays_empty}
use optimistic_replication.Ecros.Movie.{MovieState, ecros_movie_case}
use optimistic_replication.Ecros.Movie.Laws.{movies-SkipsOthers}
use optimistic_replication.Ecros.Project.{ProjectState, ecros_project_case}
use optimistic_replication.Ecros.Project.Laws.{employees-SkipsOthers}
use optimistic_replication.Ecros.Courseware.{CoursewareState, ecros_courseware_case}
use optimistic_replication.Ecros.Courseware.Laws.{students-SkipsOthers}

-- A node of the ECROS protocol that has no movies, no employees, or no students, in the movies, the project and the
-- courseware, and issues calls of any kinds, AddMovie, AddEmployee and AddStudent among them, has none
-- afterwards.
pub never_filled_again :
    (H : HashSet) (calls : List Call) (m : EcrosHandler ecros_movie_case)
    (p : EcrosHandler ecros_project_case) (c : EcrosHandler ecros_courseware_case)
    → is_empty m.obj.movie_ids ≡ true
    → is_empty p.obj.employee_ids ≡ true
    → is_empty c.obj.student_ids ≡ true
    → (is_empty (issue_all ecros_movie_case H m calls).obj.movie_ids ≡ true)
      × (is_empty (issue_all ecros_project_case H p calls).obj.employee_ids ≡ true)
      × (is_empty (issue_all ecros_courseware_case H c calls).obj.student_ids ≡ true)
never_filled_again H calls m p c x y z = (
  stays_empty ecros_movie_case H (λ (s : MovieState). s.movie_ids) (codes "DeleteCustomer")
      movies-SkipsOthers m calls x,
  stays_empty ecros_project_case H (λ (s : ProjectState). s.employee_ids) (codes "DeleteProject")
      employees-SkipsOthers p calls y,
  stays_empty ecros_courseware_case H (λ (s : CoursewareState). s.student_ids)
      (codes "DeleteCourse") students-SkipsOthers c calls z,
)
