-- ===== src/Ecros/Movie/Laws.antt =====
-- ecros-movie.hpp: a node without movies stays without them.
use optimistic_replication.Prelude.{◌≡◌, refl, true, false, Bool, codes, eq_bytes, eq_bytes→eq, not}
use optimistic_replication.Call.{Call}
use optimistic_replication.Ecros.Set.{is_empty, is_applied}
use optimistic_replication.Hamsou.Run.{if_keeps}
use optimistic_replication.Ecros.Skips.{SkipsOthers}
use optimistic_replication.Ecros.Movie.{
  MovieState, change, mark_applied, apply_call, should_skip, ecros_movie_case,
}

-- A deletion of a customer leaves the movies alone.
change_movies :
    (b : Bool) (s : MovieState) (c : Call)
    → c.type ≡ codes "DeleteCustomer"
    → (change b s c).movie_ids ≡ s.movie_ids
unfolding change eq_bytes
change_movies true s c h = rw h
change_movies false s c h = rw h

pub movies-SkipsOthers :
    SkipsOthers ecros_movie_case (λ (s : MovieState). s.movie_ids) (codes "DeleteCustomer")
unfolding apply_call mark_applied should_skip
movies-SkipsOthers = record {
  skips = λ s c h d. rw d h;
  keeps = λ s c d.
      if_keeps (λ (t : MovieState). t.movie_ids ≡ s.movie_ids) (is_applied c s.applied) refl
        (change_movies (not (is_empty s.movie_ids)) s c
          (eq_bytes→eq c.type (codes "DeleteCustomer") d));
}
