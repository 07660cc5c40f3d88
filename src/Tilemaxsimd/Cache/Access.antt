-- ===== src/Tilemaxsimd/Cache/Access.antt =====
-- The calls of `GpuCache` besides admission: hits, releases, completed uploads and removals. Each keeps
-- the invariant; together with admission, so does every history of calls.
use Prim.Native.String.{String}
use vector_chord.Base.{
  ℕ, ◌≡◌, inl, inr, true, Option, none, some, arith, refl, ap, sym, subst, Option-cases, ite,
  if_elim, ◌==◌,
}
use vector_chord.Base.Text.{string_discrete}
use vector_chord.Base.Float.{F64}
use vector_chord.Base.HashMap
use vector_chord.Tilemaxsimd.Allocator.{Result, err, entry_disappeared}
use vector_chord.Tilemaxsimd.Sketch.{increment}
use vector_chord.Tilemaxsimd.Cache.{
  Cache, Entry, ready_entry, with_entry, get, acquire_existing, release, mark_ready, remove,
  remove_entry, remove_found, no_value, count_hit, reference, release_found, mark_found,
}
use vector_chord.Tilemaxsimd.Cache.Invariant.{
  IsValid, Owns, entry, same_tables-IsValid, any_bytes, bytes_if_owner, bytes_if_pinned,
}
use vector_chord.Tilemaxsimd.Cache.Evict.{remove_entry-Removed}

module _ (F : F64) where
  -- The two entries have the same pages, and these are charged to the same books.
  record SamePages (e f : Entry F) : Type 0 where
    pub same_offset : f.offset ≡ e.offset
    pub same_bytes : f.allocated_bytes ≡ e.allocated_bytes
    pub same_pinned : f.pinned ≡ e.pinned
    pub same_owner : f.owner_tenant ≡ e.owner_tenant

  module _ (c : Cache F) (key : String) (e f : Entry F) (v : IsValid c)
      (here : entry key c ≡ some e) (s : SamePages e f) where
    entry-with_entry :
        (k : String)
        → entry k (with_entry F key f c) ≡ ite (string_discrete key k) (some f) (entry k c)
    entry-with_entry k = HashMap.get-insert string_discrete k key f c.entries

    revised-Owns :
        (k : String) (g : Entry F) → entry k (with_entry F key f c) ≡ some g → Owns c.allocator g
    revised-Owns k g h = elim (string_discrete key k) [
      | yes p ↦ subst (Owns c.allocator) (is_new p) (record {
        aligned = rw (s.same_offset) (o.aligned);
        blocks = o.blocks;
        run = rw (s.same_offset) (o.run);
        whole = rw (s.same_bytes) (o.whole);
      })
      | no p ↦ v.owns k g (ground (arith, entry-with_entry k))
    ]
      where
        o : Owns c.allocator e
        o = v.owns key e here

        is_new : key ≡ k → f ≡ g
        is_new p = ground (arith, entry-with_entry k)

    -- Each entry of the new table has an old one with its pages.
    old :
        (k : String) (g : Entry F)
        → entry k (with_entry F key f c) ≡ some g
        → (b : Entry F) × (entry k c ≡ some b) × (g.offset ≡ b.offset)
    old k g h = elim (string_discrete key k) [
      | yes p ↦ (e, ground (arith, p, here), ground (arith, entry-with_entry k, s.same_offset))
      | no p ↦ (g, ground (arith, entry-with_entry k), refl)
    ]

    with_entry-IsValid : IsValid (with_entry F key f c)
    with_entry-IsValid = record {
      arena = v.arena;
      keys_once = HashMap.insert-IsDistinct string_discrete key f c.entries v.keys_once;
      tenants_once = v.tenants_once;
      owns = revised-Owns;
      apart = λ j k g h p q r.
          let (a, pa, qa) = old j g p in
          let (b, pb, qb) = old k h q in v.apart j k a b pa pb (omega (arith, qa, qb, r));
      no_leak = omega (
        arith,
        HashMap.sum-insert_old string_discrete any_bytes key f e c.entries here,
        s.same_bytes,
        v.no_leak,
      );
      tenant_books = λ t. ground (
        arith,
        HashMap.sum-insert_old string_discrete (bytes_if_owner t) key f e c.entries here,
        s.same_bytes,
        s.same_owner,
        v.tenant_books t,
      );
      pinned_books = ground (
        arith,
        HashMap.sum-insert_old string_discrete bytes_if_pinned key f e c.entries here,
        s.same_bytes,
        s.same_pinned,
        v.pinned_books,
      );
    }

  pub ready_entry-some :
      (key : String) (c : Cache F) (e : Entry F)
      → ready_entry F key c ≡ some e
      → (entry key c ≡ some e) × (e.ready ≡ true)
  unfolding ready_entry
  ready_entry-some key c e h = ground arith

  same_pages :
      (e f : Entry F)
      → f.offset ≡ e.offset
      → f.allocated_bytes ≡ e.allocated_bytes
      → f.pinned ≡ e.pinned
      → f.owner_tenant ≡ e.owner_tenant
      → SamePages e f
  same_pages e f p q r s = record {
    same_offset = p;
    same_bytes = q;
    same_pinned = r;
    same_owner = s;
  }

  pub get-IsValid :
      (hash : ℕ → String → ℕ) (key : String) (c : Cache F)
      → IsValid c
      → IsValid (get F hash key c).1
  unfolding get count_hit
  get-IsValid hash key c v = go (ready_entry F key d) (ready_entry-some key d)
    where
      d : Cache F
      d = record c { sketch = (increment hash key c.sketch).1 }

      w : IsValid d
      w = same_tables-IsValid c d refl refl refl refl v

      go :
          (o : Option (Entry F))
          → ((e : Entry F) → o ≡ some e → (entry key d ≡ some e) × (e.ready ≡ true))
          → IsValid (count_hit F key (increment hash key c.sketch).0 o d).1
      go none h = same_tables-IsValid d _ refl refl refl refl w
      go (some e) h =
          same_tables-IsValid (with_entry F key _ d) _ refl refl refl refl
            (with_entry-IsValid d key e _ w (h e refl).0 (same_pages e _ refl refl refl refl))

  pub acquire_existing-IsValid :
      (key : String) (c : Cache F) → IsValid c → IsValid (acquire_existing F key c).1
  unfolding acquire_existing reference
  acquire_existing-IsValid key c v = go (ready_entry F key c) (ready_entry-some key c)
    where
      go :
          (o : Option (Entry F))
          → ((e : Entry F) → o ≡ some e → (entry key c ≡ some e) × (e.ready ≡ true))
          → IsValid (reference F key o c).1
      go none h = v
      go (some e) h =
          with_entry-IsValid c key e _ v (h e refl).0 (same_pages e _ refl refl refl refl)

  pub release-IsValid : (key : String) (c : Cache F) → IsValid c → IsValid (release F key c).1
  unfolding release release_found
  release-IsValid key c v = go (entry key c) refl
    where
      go : (o : Option (Entry F)) → entry key c ≡ o → IsValid (release_found F key o c).1
      go none h = v
      go (some e) h =
          if_elim (λ (r : Result (Unit {0}) × Cache F). IsValid r.1) (e.references == 0) (λ p. v)
            (λ p. with_entry-IsValid c key e _ v h (same_pages e _ refl refl refl refl))

  pub mark_ready-IsValid : (key : String) (c : Cache F) → IsValid c → IsValid (mark_ready F key c).1
  unfolding mark_ready mark_found
  mark_ready-IsValid key c v = go (entry key c) refl
    where
      go : (o : Option (Entry F)) → entry key c ≡ o → IsValid (mark_found F key o c).1
      go none h = v
      go (some e) h = with_entry-IsValid c key e _ v h (same_pages e _ refl refl refl refl)

  pub remove-IsValid : (key : String) (c : Cache F) → IsValid c → IsValid (remove F key c).1
  unfolding remove no_value remove_entry remove_found
  remove-IsValid key c v = elim (Option-cases (entry key c)) [
    | inl e ↦
        subst IsValid (sym (ap (λ (r : Result (Entry F) × Cache F). (no_value F r).1) (missing e)))
          v
    | inr (e, h) ↦
        let r = remove_entry-Removed F c key e v h in
        subst IsValid (sym (ap (λ (r : Result (Entry F) × Cache F). (no_value F r).1) r.result))
          (r.valid)
  ]
    where
      missing : entry key c ≡ none → remove_entry F key c ≡ (err entry_disappeared, c)
      missing e = rw e refl
