-- ===== src/Tests/EcrosCases.antt =====
-- The ECROS handler over the stack and over the movies.
use optimistic_replication.Prelude.{◌≡◌, refl, true, List, [], ◌∷◌, codes, eq_bytes}
use optimistic_replication.Call.{Call, new_call}
use optimistic_replication.Ecros.{EcrosHandler, set_vars}
use optimistic_replication.Ecros.Set.{is_empty}
use optimistic_replication.Ecros.Set as Set
use optimistic_replication.Ecros.Stack as Stack
use optimistic_replication.Ecros.Stack.{StackState, stack_to_string}
use optimistic_replication.Ecros.Movie.{ecros_movie_case, MovieState, movie_to_string}
use optimistic_replication.Ecros.Movie as Movie
use optimistic_replication.Ecros.Project.{ecros_project_case, resolution}
use optimistic_replication.Ecros.Project as Project
use optimistic_replication.Ecros.Courseware.{ecros_courseware_case}
use optimistic_replication.Ecros.Courseware as Courseware
use optimistic_replication.Ecros.Skips.{issue_all}
use optimistic_replication.Ecros.Skips.Cases.{never_filled_again}
use optimistic_replication.Tests.Ecros.{newest}

abbrev push_5 : Call
push_5 = new_call (codes "Push") 5 0 0 0 1 1

-- A node pushes 5, and then recomputes its state from an order with this call.
five_twice :
    (Stack.recompute_state (Stack.apply_call Stack.initial push_5) (push_5 ∷ [])).elements
    ≡ 5 ∷ 5 ∷ []
unfolding Stack.recompute_state Stack.apply_call Stack.apply_to Set.is_applied eq_bytes
five_twice = refl

abbrev no_movies : EcrosHandler ecros_movie_case
no_movies = record (set_vars ecros_movie_case 1 2 4) { obj = Movie.initial }

abbrev late_calls : List Call
late_calls =
    new_call (codes "AddMovie") 3 0 0 0 1 1
    ∷ new_call (codes "DeleteCustomer") 3 0 0 0 1 2
    ∷ new_call (codes "AddMovie") 4 0 0 0 1 3
    ∷ []

abbrev no_employees : EcrosHandler ecros_project_case
no_employees = record (set_vars ecros_project_case 1 2 4) { obj = Project.initial }

abbrev no_students : EcrosHandler ecros_courseware_case
no_students = record (set_vars ecros_courseware_case 1 2 4) { obj = Courseware.initial }

never_filled_again_example :
    (is_empty (issue_all ecros_movie_case newest no_movies late_calls).obj.movie_ids ≡ true)
    × (is_empty (issue_all ecros_project_case newest no_employees late_calls).obj.employee_ids
        ≡ true)
    × (is_empty (issue_all ecros_courseware_case newest no_students late_calls).obj.student_ids
        ≡ true)
never_filled_again_example =
    never_filled_again newest late_calls no_movies no_employees no_students refl refl refl

names : (stack_to_string 1 ≡ codes "Pop") × (movie_to_string 3 ≡ codes "DeleteCustomer")
unfolding stack_to_string movie_to_string
names = (refl, refl)
