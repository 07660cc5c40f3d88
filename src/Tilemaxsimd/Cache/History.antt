-- ===== src/Tilemaxsimd/Cache/History.antt =====
-- Every cache that `new_with_limits` and the calls of the engine can lead to. The engine admits only
-- keys that its caches do not hold (services/tilemaxsimd/src/engine.rs: `unique_descriptors`,
-- `first_candidate_by_key`), which is the hypothesis of an admission here.
use Prim.Native.String.{String}
use vector_chord.Base.{
  ℕ, ◌+◌, ◌-◌, ◌<◌, ◌≡◌, ◌≢◌, inl, inr, Bool, true, none, some, [], arith, refl, ap, ◌∙◌, subst,
  Option-cases, Bool-cases,
}
use vector_chord.Base.Text.{string_discrete}
use vector_chord.Base.Float.{F64}
use vector_chord.Base.HashMap
use vector_chord.Base.HashMap.{HashMap}
use vector_chord.Tilemaxsimd.Allocator
use vector_chord.Tilemaxsimd.Allocator.{
  PageRunAllocator, Result, ok, err, usize_mod, allocated_blocks,
}
use vector_chord.Tilemaxsimd.Allocator.History.{new_lem}
use vector_chord.Tilemaxsimd.Cache.{
  Cache, Entry, Progress, answered, Admission, new_with_limits, get, acquire_existing,
  record_access_miss, release, mark_ready, remove, admit_for_tenant, ready_entry, count_hit,
  release_found,
}
use vector_chord.Tilemaxsimd.Cache.Invariant.{IsValid, entry, same_tables-IsValid}
use vector_chord.Tilemaxsimd.Cache.Outcomes.{Ended, refusal, grant, admit_for_tenant-Ended}
use vector_chord.Tilemaxsimd.Cache.Access.{
  get-IsValid, acquire_existing-IsValid, release-IsValid, mark_ready-IsValid, remove-IsValid,
}

module _ (F : F64) (hash : ℕ → String → ℕ) where
  pub data Reachable : Cache F → Type 0 where
    started :
        (size block_bytes tenant_percent pinned_percent : ℕ) (reservations : HashMap String ℕ)
        (c : Cache F)
        → size < usize_mod
        → new_with_limits F size block_bytes tenant_percent pinned_percent reservations ≡ ok c
        → Reachable c
    looked_up : (c : Cache F) (key : String) → Reachable c → Reachable (get F hash key c).1
    acquired : (c : Cache F) (key : String) → Reachable c → Reachable (acquire_existing F key c).1
    missed :
        (c : Cache F) (key : String) → Reachable c → Reachable (record_access_miss F hash key c)
    released : (c : Cache F) (key : String) → Reachable c → Reachable (release F key c).1
    uploaded : (c : Cache F) (key : String) → Reachable c → Reachable (mark_ready F key c).1
    removed : (c : Cache F) (key : String) → Reachable c → Reachable (remove F key c).1
    asked :
        (c d : Cache F) (tenant key : String) (payload rows dimension dtype : ℕ)
        (pinned force : Bool) (a : Admission)
        → Reachable c
        → entry key c ≡ none
        → admit_for_tenant F hash tenant key payload rows dimension dtype pinned force c
          ≡ answered a d
        → Reachable d

  no_entries-IsValid :
      (a : PageRunAllocator) (c : Cache F)
      → Allocator.Invariant.IsValid a
      → a.allocated ≡ []
      → c.allocator ≡ a
      → c.entries ≡ []
      → c.tenant_allocated ≡ []
      → c.pinned_bytes ≡ 0
      → IsValid c
  unfolding HashMap.sum HashMap.get allocated_blocks
  no_entries-IsValid a c v e p q r s = record {
    arena = rw p v;
    keys_once = rw q tt;
    tenants_once = rw r tt;
    owns = λ k f h. absurd (ground (arith, q));
    apart = λ j k f g h i t. absurd (ground (arith, q));
    no_leak = rw (q, p, e) (omega arith);
    tenant_books = λ t. rw (q, r) refl;
    pinned_books = rw (q, s) refl;
  }

  new_with_limits-IsValid :
      (size block_bytes tenant_percent pinned_percent : ℕ) (reservations : HashMap String ℕ)
      (c : Cache F)
      → size < usize_mod
      → new_with_limits F size block_bytes tenant_percent pinned_percent reservations ≡ ok c
      → IsValid c
  unfolding new_with_limits
  new_with_limits-IsValid size block_bytes tp pp reservations c small e =
      let laws = new_lem size block_bytes small in
      let (p, q, h) = laws.1 c.allocator made in
      let (a, same, v, shape, count, free, empty) = laws.0 p q h in
      no_entries-IsValid a c v empty (ground (arith, made, same)) (ground arith) (ground arith)
        (ground arith)
    where
      made : Allocator.new size block_bytes ≡ ok c.allocator
      made = ground arith

  admitted-IsValid :
      (c d : Cache F) (tenant key : String) (payload : ℕ) (pinned : Bool) (a : Admission)
      (r : Progress F.Carrier)
      → Ended F c tenant key payload pinned r
      → r ≡ answered a d
      → IsValid d
  admitted-IsValid c d tenant key payload pinned a r (refusal b g i k e) h =
      subst IsValid (ground arith) (k.valid)
  admitted-IsValid c d tenant key payload pinned a r (grant offset bytes g k e) h =
      subst IsValid (ground arith) (k.valid)

  -- Every reachable cache is valid: its entries own the allocated runs one to one, no page is lost,
  -- and the books of the tenants and of the pinned bytes are right.
  pub Reachable-IsValid : (c : Cache F) → Reachable c → IsValid c
  unfolding record_access_miss
  Reachable-IsValid c (started size block_bytes tp pp reservations _ small e) =
      new_with_limits-IsValid size block_bytes tp pp reservations c small e
  Reachable-IsValid _ (looked_up c key r) = get-IsValid F hash key c (Reachable-IsValid c r)
  Reachable-IsValid _ (acquired c key r) = acquire_existing-IsValid F key c (Reachable-IsValid c r)
  Reachable-IsValid _ (missed c key r) =
      same_tables-IsValid c _ refl refl refl refl (Reachable-IsValid c r)
  Reachable-IsValid _ (released c key r) = release-IsValid F key c (Reachable-IsValid c r)
  Reachable-IsValid _ (uploaded c key r) = mark_ready-IsValid F key c (Reachable-IsValid c r)
  Reachable-IsValid _ (removed c key r) = remove-IsValid F key c (Reachable-IsValid c r)
  Reachable-IsValid d (asked c _ tenant key payload rows dimension dtype pinned force a r new e) =
      admitted-IsValid c d tenant key payload pinned a _
        (admit_for_tenant-Ended F hash tenant key payload rows dimension dtype pinned force c
          (Reachable-IsValid c r) new)
        e

  get_lem :
      (key : String) (c : Cache F) (e : Entry F)
      → (get F hash key c).0 ≡ some e
      → (f : Entry F) × (entry key c ≡ some f)
        × (f.ready ≡ true)
        × (e.references ≡ f.references + 1)
        × (entry key (get F hash key c).1 ≡ some e)
        × ((k : String) → key ≢ k → entry k (get F hash key c).1 ≡ entry k c)
  unfolding get count_hit ready_entry
  get_lem key c e h = elim (Option-cases (entry key c)) [
    | inl n ↦ absurd (ground arith)
    | inr (f, here) ↦ elim (Bool-cases (f.ready)) [
      | inl ready ↦ (
        f,
        here,
        ready,
        ground arith,
        ground (arith, HashMap.get-insert string_discrete key key e c.entries),
        λ k p. ground (arith, HashMap.get-insert string_discrete k key e c.entries),
      )
      | inr loading ↦ absurd (ground arith)
    ]
  ]

  release-referenced :
      (key : String) (c : Cache F) (e : Entry F)
      → entry key c ≡ some e
      → e.references ≢ 0
      → ((release F key c).0 ≡ ok tt)
        × (entry key (release F key c).1 ≡ some (record e { references = e.references - 1 }))
        × ((k : String) → key ≢ k → entry k (release F key c).1 ≡ entry k c)
  unfolding release release_found
  release-referenced key c e h n =
      let f : Entry F = record e { references = e.references - 1 } in
      (
        ground arith,
        ground (arith, HashMap.get-insert string_discrete key key f c.entries),
        λ k p. ground (arith, HashMap.get-insert string_discrete k key f c.entries),
      )

  -- A hit is a hit on a completed upload, and it takes one reference, which `release` gives back.
  -- Neither call touches another entry.
  pub release-get :
      (key : String) (c : Cache F) (e : Entry F)
      → (get F hash key c).0 ≡ some e
      → (f : Entry F) × (entry key c ≡ some f)
        × (f.ready ≡ true)
        × (e.references ≡ f.references + 1)
        × (entry key (get F hash key c).1 ≡ some e)
        × ((release F key (get F hash key c).1).0 ≡ ok tt)
        × (entry key (release F key (get F hash key c).1).1
            ≡ some (record e { references = f.references }))
        × ((k : String) → key ≢ k → entry k (release F key (get F hash key c).1).1 ≡ entry k c)
  release-get key c e h =
      let (f, here, ready, more, stored, others) = get_lem key c e h in
      let (result, less, same) =
        release-referenced key (get F hash key c).1 e stored (omega arith) in
      (
        f,
        here,
        ready,
        more,
        stored,
        result,
        less ∙ ap (λ n. some (record e { references = n })) (omega arith),
        λ k p. same k p ∙ others k p,
      )
