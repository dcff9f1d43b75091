-- ===== src/Ecros/Courseware/Laws.antt =====
-- ecros-courseware.hpp: a node without students stays without them.
use optimistic_replication.Prelude.{◌≡◌, refl, codes, eq_bytes, eq_bytes→eq, Bool-cases, inl, inr}
use optimistic_replication.Call.{Call}
use optimistic_replication.Ecros.Set.{is_empty, is_applied}
use optimistic_replication.Hamsou.Run.{if_keeps}
use optimistic_replication.Ecros.Skips.{SkipsOthers}
use optimistic_replication.Ecros.Courseware.{
  CoursewareState, change, mark_applied, apply_call, should_skip, ecros_courseware_case,
}

change_students :
    (s : CoursewareState) (c : Call)
    → c.type ≡ codes "DeleteCourse"
    → (change s c).student_ids ≡ s.student_ids
unfolding change eq_bytes
change_students s c h = elim (Bool-cases (is_empty s.course_ids)) [
  | inl e ↦ rw (h, e)
  | inr e ↦ rw (h, e)
]

pub students-SkipsOthers :
    SkipsOthers ecros_courseware_case
      (λ (s : CoursewareState). s.student_ids)
      (codes "DeleteCourse")
unfolding apply_call mark_applied should_skip
students-SkipsOthers = record {
  skips = λ s c h d. rw d h;
  keeps = λ s c d.
      if_keeps (λ (t : CoursewareState). t.student_ids ≡ s.student_ids) (is_applied c s.applied)
        refl (change_students s c (eq_bytes→eq c.type (codes "DeleteCourse") d));
}
