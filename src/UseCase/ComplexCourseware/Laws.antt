-- ===== src/UseCase/ComplexCourseware/Laws.antt =====
-- complex-courseware.hpp: its conflict relation has chains whose ends it does not relate, and replicas that
-- receive such calls in different orders part.
use optimistic_replication.Prelude.{
  ◌≡◌, ◌≢◌, sym, ap, ◌∙◌, true, false, some, [], ◌∷◌, codes, eq_bytes, arith,
}
use mathlib.Core.Option.{some-injective}
use optimistic_replication.Call.{Call}
use optimistic_replication.Hamsou.Ops.{insert_call}
use optimistic_replication.Hamsou.Order.{replay}
use optimistic_replication.UseCase.ComplexCourseware.{
  ComplexState, StudentRow, fast_is_reachable_remote,
}
use optimistic_replication.UseCase.ComplexCourseware.Tables.{put, erase_key, change_row}
use optimistic_replication.UseCase.ComplexCourseware.Updates.{
  complex_case, update_state, update_stable_state, add_student_force, delete_student_cascade,
  update_student_other,
}

reach_other_delete :
    (a c : Call)
    → a.type ≡ codes "UpdateStudentOther"
    → c.type ≡ codes "DeleteStudentCascade"
    → fast_is_reachable_remote a c ≡ false
unfolding fast_is_reachable_remote eq_bytes
reach_other_delete a c h k = rw (h, k)

reach_add_delete :
    (b c : Call)
    → b.type ≡ codes "AddStudentForce"
    → c.type ≡ codes "DeleteStudentCascade"
    → fast_is_reachable_remote b c ≡ true
unfolding fast_is_reachable_remote eq_bytes
reach_add_delete b c h k = rw (h, k)

reach_add_other :
    (b a : Call)
    → b.type ≡ codes "AddStudentForce"
    → a.type ≡ codes "UpdateStudentOther"
    → fast_is_reachable_remote b a ≡ false
unfolding fast_is_reachable_remote eq_bytes
reach_add_other b a h k = rw (h, k)

reach_delete :
    (c a : Call) → c.type ≡ codes "DeleteStudentCascade" → fast_is_reachable_remote c a ≡ false
unfolding fast_is_reachable_remote eq_bytes
reach_delete c a h = rw h

update_add :
    (s : ComplexState) (b : Call)
    → b.type ≡ codes "AddStudentForce"
    → update_stable_state s b ≡ add_student_force s b
unfolding update_stable_state update_state eq_bytes
update_add s b h = rw h

update_delete :
    (s : ComplexState) (c : Call)
    → c.type ≡ codes "DeleteStudentCascade"
    → update_stable_state s c ≡ delete_student_cascade s c
unfolding update_stable_state update_state eq_bytes
update_delete s c h = rw h

update_other :
    (s : ComplexState) (a : Call)
    → a.type ≡ codes "UpdateStudentOther"
    → update_stable_state s a ≡ update_student_other s a
unfolding update_stable_state update_state eq_bytes
update_other s a h = rw h

-- The three calls in the order in which one node has them: the addition, the deletion, the update.
arrives_last :
    (a b c : Call)
    → a.type ≡ codes "UpdateStudentOther"
    → b.type ≡ codes "AddStudentForce"
    → c.type ≡ codes "DeleteStudentCascade"
    → insert_call complex_case b (insert_call complex_case a (insert_call complex_case c []))
      ≡ b ∷ c ∷ a ∷ []
unfolding insert_call
arrives_last a b c h k l = rw (reach_other_delete a c h l, reach_add_delete b c k l)

-- And in that of another.
arrives_first :
    (a b c : Call)
    → a.type ≡ codes "UpdateStudentOther"
    → b.type ≡ codes "AddStudentForce"
    → c.type ≡ codes "DeleteStudentCascade"
    → insert_call complex_case c (insert_call complex_case b (insert_call complex_case a []))
      ≡ a ∷ b ∷ c ∷ []
unfolding insert_call
arrives_first a b c h k l = rw (reach_add_other b a k h, reach_delete c a l, reach_delete c b l)

-- The student's row at the end of each.
updated_row :
    (s : ComplexState) (a b c : Call)
    → a.value1 ≡ b.value1
    → c.value1 ≢ b.value1
    → (update_student_other (delete_student_cascade (add_student_force s b) c) a).students b.value1
      ≡ some (record { first_name = a.value2; last_name = a.value3 })
unfolding update_student_other delete_student_cascade add_student_force put erase_key change_row
updated_row s a b c h k = ground arith

added_row :
    (s : ComplexState) (b c : Call)
    → c.value1 ≢ b.value1
    → (delete_student_cascade (add_student_force s b) c).students b.value1
      ≡ some (record { first_name = b.value2; last_name = b.value3 })
unfolding delete_student_cascade add_student_force put erase_key
added_row s b c k = ground arith

-- One node puts a deletion of a student, then an update and then an addition of another student into its
-- pending calls, and another node puts in the update, the addition and the deletion. Where the update and the
-- addition give the student different first names, replaying the two lists from any common stable state
-- leads to different states.
pub chain_diverges :
    (s : ComplexState) (a b c : Call)
    → a.type ≡ codes "UpdateStudentOther"
    → b.type ≡ codes "AddStudentForce"
    → c.type ≡ codes "DeleteStudentCascade"
    → a.value1 ≡ b.value1
    → c.value1 ≢ b.value1
    → a.value2 ≢ b.value2
    → replay complex_case s
        (insert_call complex_case b (insert_call complex_case a (insert_call complex_case c [])))
      ≢ replay complex_case s
          (insert_call complex_case c (insert_call complex_case b (insert_call complex_case a [])))
chain_diverges s a b c h k l same_id other_id differ e =
    let f : update_student_other (delete_student_cascade (add_student_force s b) c) a
        ≡ delete_student_cascade (add_student_force (update_student_other s a) b) c =
      rw
        (
          arrives_last a b c h k l,
          arrives_first a b c h k l,
          update_add s b k,
          update_delete (add_student_force s b) c l,
          update_other (delete_student_cascade (add_student_force s b) c) a h,
          update_other s a h,
          update_add (update_student_other s a) b k,
          update_delete (add_student_force (update_student_other s a) b) c l,
        )
        at e in
    let g =
      sym (updated_row s a b c same_id other_id)
      ∙ ap (λ (t : ComplexState). t.students b.value1) f
      ∙ added_row (update_student_other s a) b c other_id in
    differ (ap (λ (r : StudentRow). r.first_name) (some-injective _ _ g))
