-- ===== src/Hamsou/Stamp.antt =====
-- protocol-hamsou.cpp, localHandler: the loop that copies the handler's clock into the call.
use optimistic_replication.Prelude.{
  ℕ, suc, ◌<◌, ◌≡◌, refl, sym, ap, ◌∙◌, true, some, List, [], ◌∷◌, ◌++◌, append_assoc, arith,
  length, length-append, get_elem?, set, resize, resize_self, length-resize, subst,
}
use optimistic_replication.Hamsou.Ops.{stamp_loop}

get_elem?-middle :
    (xs : List ℕ) (y : ℕ) (ys : List ℕ) → get_elem? (xs ++ (y ∷ ys)) (length xs) ≡ some y
get_elem?-middle [] y ys = refl
get_elem?-middle (x ∷ xs) y ys = get_elem?-middle xs y ys

set-middle :
    (xs : List ℕ) (y : ℕ) (ys : List ℕ) (v : ℕ)
    → set (xs ++ (y ∷ ys)) (length xs) v ≡ xs ++ (v ∷ ys)
set-middle [] y ys v = refl
set-middle (x ∷ xs) y ys v = ap (◌∷◌ x) (set-middle xs y ys v)

stamp_step :
    (rounds i n : ℕ) (vc call_vc : List ℕ) (v : ℕ)
    → get_elem? vc i ≡ some v
    → stamp_loop (suc rounds) i n vc call_vc
      ≡ stamp_loop rounds (suc i) n vc (set (resize n 0 call_vc) i v)
unfolding stamp_loop
stamp_step rounds i n vc call_vc v e = rw (e, stamp_loop)

-- The same at an entry in the middle: the clock of the call takes it over.
stamp_middle :
    (rounds n : ℕ) (front : List ℕ) (x : ℕ) (xs : List ℕ) (y : ℕ) (ys call_vc : List ℕ)
    → resize n 0 call_vc ≡ front ++ (y ∷ ys)
    → stamp_loop (suc rounds) (length front) n (front ++ (x ∷ xs)) call_vc
      ≡ stamp_loop rounds (suc (length front)) n (front ++ (x ∷ xs)) (front ++ (x ∷ ys))
stamp_middle rounds n front x xs y ys call_vc e =
    stamp_step rounds (length front) n (front ++ (x ∷ xs)) call_vc x (get_elem?-middle front x xs)
    ∙ ap (stamp_loop rounds (suc (length front)) n (front ++ (x ∷ xs)))
        (ap (λ l. set l (length front) x) e ∙ set-middle front y ys x)

-- The loop after the entries `front` were copied, when the call's clock still holds `rest` behind them.
stamp_rest :
    (n : ℕ) (front back rest call_vc : List ℕ)
    → length (front ++ back) ≡ n
    → length rest ≡ length back
    → resize n 0 call_vc ≡ front ++ rest
    → 0 < length back
    → stamp_loop (length back) (length front) n (front ++ back) call_vc ≡ (front ++ back, true)
stamp_rest n front [] rest call_vc hn hr e h = absurd (omega arith)
stamp_rest n front (x ∷ xs) [] call_vc hn hr e h = absurd (omega arith)
stamp_rest n front (x ∷ []) (y ∷ []) call_vc hn hr e h =
    stamp_middle 0 n front x [] y [] call_vc e ∙ unfold stamp_loop in refl
stamp_rest n front (x ∷ []) (y ∷ z ∷ zs) call_vc hn hr e h = absurd (omega arith)
stamp_rest n front (x ∷ x' ∷ xs) (y ∷ ys) call_vc hn hr e h =
    stamp_middle (suc (length xs)) n front x (x' ∷ xs) y ys call_vc e
    ∙ rw (moved, one_more) at
        (stamp_rest n (front ++ (x ∷ [])) (x' ∷ xs) ys (front ++ (x ∷ ys)) (rw moved hn)
          (omega arith) filled (omega arith))
  where
    fits : length (front ++ (x ∷ ys)) ≡ n
    fits = omega (arith, length-append front (x ∷ ys), length-append front (x ∷ x' ∷ xs))

    filled : resize n 0 (front ++ (x ∷ ys)) ≡ (front ++ (x ∷ [])) ++ ys
    filled =
        subst (λ k. resize k 0 (front ++ (x ∷ ys)) ≡ front ++ (x ∷ ys)) fits
          (resize_self 0 (front ++ (x ∷ ys)))
        ∙ sym (append_assoc front (x ∷ []) ys)

    moved : (front ++ (x ∷ [])) ++ (x' ∷ xs) ≡ front ++ (x ∷ x' ∷ xs)
    moved = append_assoc front (x ∷ []) (x' ∷ xs)

    one_more : length (front ++ (x ∷ [])) ≡ suc (length front)
    one_more = omega (arith, length-append front (x ∷ []))

-- The copy ends without an error, and the call's clock is the handler's, whatever it was.
pub stamp_all :
    (n : ℕ) (vc call_vc : List ℕ) → length vc ≡ n → 0 < n → stamp_loop n 0 n vc call_vc ≡ (vc, true)
stamp_all n vc call_vc h k =
    subst (λ m. stamp_loop m 0 n vc call_vc ≡ (vc, true)) h
      (stamp_rest n [] vc (resize n 0 call_vc) call_vc h (length-resize n 0 call_vc ∙ sym h) refl
        (omega arith))
