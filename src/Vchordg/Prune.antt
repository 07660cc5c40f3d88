-- ===== src/Vchordg/Prune.antt =====
-- crates/vchordg/src/prune.rs: the neighbours that a vertex keeps. `Reverse` and `AlwaysEqual` are left
-- out: an item is a distance, a vertex and its vector. The key of a vertex is the number by which it
-- compares, and `d` the distance of two vectors, a pure function. A distance is as in
-- crates/distance; a multiplication and a comparison of floats by their bits are parameters.
pub mod Kept
pub mod Diverse
mod Tests
use vector_chord.Base.{
  ℕ, Bool, true, false, not, ◌&&◌, List, [], ◌∷◌, ◌++◌, map, length, take, ◌==◌, if◌then◌else◌,
}
use vector_chord.Base.Vecs.{sort_by_key}
use vector_chord.Base.Dedup.{dedup_by_key, retain}
use vector_chord.Base.Float.{F32}
use vector_chord.Distance.{to_f32, signed}

-- The bits of 1.0.
abbrev pub one : ℕ
one = 1065353216

abbrev pub Item : Type 0 → Type 0 → Type 0
Item T V = (ℕ × T) × V

abbrev pub distance : {T V : Type 0} → Item T V → ℕ
distance a = a.0.0

-- What a distance compares by: a signed number.
abbrev pub rank : {T V : Type 0} → Item T V → ℕ
rank a = signed (distance a)

module _ (f : F32) {T V : Type 0} (d : V → V → ℕ) where
  -- `all` over the result: the item is closer to the vertex than `alpha` times to any kept one.
  pub check : ℕ → Item T V → List (Item T V) → Bool
  check alpha u [] = true
  check alpha u (v ∷ vs) =
      f.lt (to_f32 (distance u)) (f.mul alpha (to_f32 (d (u.1) (v.1)))) && check alpha u vs

  -- One item in the result or among the pruned ones.
  abbrev pub place :
      ℕ → Item T V → List (Item T V) → List (Item T V) → List (Item T V) × List (Item T V)
  place alpha u result pruned =
      if check alpha u result then (result ++ u ∷ [], pruned) else (result, pruned ++ u ∷ [])

  pub prune_loop :
      ℕ
      → ℕ
      → List (Item T V)
      → List (Item T V)
      → List (Item T V)
      → List (Item T V) × List (Item T V)
  unfolding place
  prune_loop m alpha [] result pruned = (result, pruned)
  prune_loop m alpha (u ∷ trace) result pruned =
      let (result', pruned') = place alpha u result pruned in
      let rest = prune_loop m alpha trace result' pruned' in
      if length result == m then (result, pruned) else rest

  -- The result and the items that it returns.
  pub robust_prune : ℕ → ℕ → List (Item T V) → List (Item T V) → List (Item T V) × List (Item T V)
  robust_prune m alpha result trace = prune_loop m alpha trace result []

  pub alpha_loop :
      ℕ → List ℕ → List (Item T V) → List (Item T V) → List (Item T V) × List (Item T V)
  alpha_loop m [] result trace = (result, trace)
  alpha_loop m (alpha ∷ alphas) result trace =
      let (result', trace') = robust_prune m alpha result trace in
      let rest = alpha_loop m alphas result' trace' in
      if length result == m then (result, trace) else rest

  -- `extend` and `truncate`
  abbrev pub fill_up : ℕ → List (Item T V) × List (Item T V) → List (Item T V)
  fill_up m (result, trace) = if not (length result == m) then take m (result ++ trace) else result

  -- The items of different vertices other than `u`, by distance.
  pub candidates : (T → ℕ) → T → List (Item T V) → List (Item T V)
  candidates key u outs =
      let by_vertex = λ (a : Item T V). key (a.0.1) in
      sort_by_key rank (
        retain (λ a. not (by_vertex a == key u))
          (dedup_by_key by_vertex (sort_by_key by_vertex outs)))

  pub prune : T → List (Item T V) → ℕ → List ℕ → (T → ℕ) → Bool → List (ℕ × T)
  unfolding candidates alpha_loop
  prune u outs m alpha key is_l2s =
      map (λ (a : Item T V). a.0)
        (fill_up m (alpha_loop m (if is_l2s then alpha else one ∷ []) [] (candidates key u outs)))
