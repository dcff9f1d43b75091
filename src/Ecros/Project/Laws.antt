-- ===== src/Ecros/Project/Laws.antt =====
-- ecros-project.hpp: a node without employees stays without them.
use optimistic_replication.Prelude.{◌≡◌, refl, codes, eq_bytes, eq_bytes→eq, Bool-cases, inl, inr}
use optimistic_replication.Call.{Call}
use optimistic_replication.Ecros.Set.{is_empty, is_applied}
use optimistic_replication.Hamsou.Run.{if_keeps}
use optimistic_replication.Ecros.Skips.{SkipsOthers}
use optimistic_replication.Ecros.Project.{
  ProjectState, change, mark_applied, apply_call, should_skip, ecros_project_case,
}

change_employees :
    (s : ProjectState) (c : Call)
    → c.type ≡ codes "DeleteProject"
    → (change s c).employee_ids ≡ s.employee_ids
unfolding change eq_bytes
change_employees s c h = elim (Bool-cases (is_empty s.project_ids)) [
  | inl e ↦ rw (h, e)
  | inr e ↦ rw (h, e)
]

pub employees-SkipsOthers :
    SkipsOthers ecros_project_case (λ (s : ProjectState). s.employee_ids) (codes "DeleteProject")
unfolding apply_call mark_applied should_skip
employees-SkipsOthers = record {
  skips = λ s c h d. rw d h;
  keeps = λ s c d.
      if_keeps (λ (t : ProjectState). t.employee_ids ≡ s.employee_ids) (is_applied c s.applied) refl
        (change_employees s c (eq_bytes→eq c.type (codes "DeleteProject") d));
}
