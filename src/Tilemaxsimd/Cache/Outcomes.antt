-- ===== src/Tilemaxsimd/Cache/Outcomes.antt =====
-- `admit_for_tenant` as a whole.
use Prim.Native.String.{String}
use vector_chord.Base.{
  ℕ, suc, ◌+◌, ◌*◌, ◌/◌, ◌%◌, ◌≤◌, ◌≡◌, inr, Bool, true, false, Option, none, some, arith, refl,
  length, ap, subst, if_elim, ltb, ◌&&◌,
}
use vector_chord.Base.Text.{string_discrete}
use vector_chord.Base.Float.{F64}
use vector_chord.Base.HashMap
use vector_chord.Tilemaxsimd.Allocator
use vector_chord.Tilemaxsimd.Allocator.{
  PageRunAllocator, usize_mod, allocate, allocation_bytes, capacity, best_fit, largest_free,
}
use vector_chord.Tilemaxsimd.Allocator.Allocate.{
  after_allocate-IsValid, best_fit-some, free-unused, required-pos, bytes-required,
  payload-le-bytes, same_arena, allocated-after_allocate, after_allocate,
  allocation_bytes-same_unit,
}
use vector_chord.Tilemaxsimd.Allocator.Requests.{Outcome, refused, granted, allocate-Outcome}
use vector_chord.Tilemaxsimd.Cache.{
  Cache, Entry, Progress, answered, and_then, Admission, admitted, deferred, bytes_of,
  saturating_add, take_pages, free_pages, make_room, admit_sized, admit_for_tenant, tenant_limit,
  record_grant,
}
use vector_chord.Tilemaxsimd.Cache.Invariant.{IsValid, entry}
use vector_chord.Tilemaxsimd.Cache.Admit.{
  Kept, Kept-refl, Kept-trans, IsHeld, IsRefusal, Looped, stopped, done, tenant_loop-Looped,
  arena_loop-Looped,
}
use vector_chord.Tilemaxsimd.Cache.Grant.{
  Pages, after, newcomer, entries_after, record_grant-IsValid, no_overflow, owner-le-any,
  pinned-le-any,
}

module _ (F : F64) where
  -- What a grant of `bytes` at `offset` has made of the cache `c`.
  pub record Granted (c : Cache F) (tenant key : String) (payload : ℕ) (pinned : Bool)
      (offset bytes : ℕ) (d : Cache F) : Type 0 where
    pub valid : IsValid d
    pub held : (k : String) (e : Entry F) → entry k c ≡ some e → IsHeld F e → entry k d ≡ some e
    pub room : payload ≤ bytes
    pub stored : Entry F
    pub found : entry key d ≡ some stored
    pub placed : (stored.offset ≡ offset) × (stored.allocated_bytes ≡ bytes)
    pub fresh : (stored.references ≡ 1) × (stored.ready ≡ false) × (stored.pinned ≡ pinned)
    pub quota : pinned ≡ false → bytes_of tenant d.tenant_allocated ≤ tenant_limit F tenant c
    pub pinned_quota : pinned ≡ true → d.pinned_bytes ≤ c.pinned_max_bytes

  -- How an admission may end: no loop runs on, and no `expect` fails.
  pub data Ended (c : Cache F) (tenant key : String) (payload : ℕ) (pinned : Bool)
      (r : Progress F.Carrier) : Type 0 where
    refusal :
        (a : Admission) (d : Cache F)
        → IsRefusal F a
        → Kept F c d
        → r ≡ answered a d
        → Ended c tenant key payload pinned r
    grant :
        (offset bytes : ℕ) (d : Cache F)
        → Granted c tenant key payload pinned offset bytes d
        → r ≡ answered (admitted offset bytes) d
        → Ended c tenant key payload pinned r

  Pages-of :
      (a : PageRunAllocator) (v : Allocator.Invariant.IsValid a) (payload bytes s n : ℕ)
      → allocation_bytes a payload ≡ some bytes
      → best_fit a (bytes / a.block_bytes) ≡ some (s, n)
      → Pages F a (after_allocate a s n (bytes / a.block_bytes)) (s * a.block_bytes) bytes
  Pages-of a v payload bytes s n sized found =
      let h = best_fit-some a v (bytes / a.block_bytes) s n found in
      record {
        start = s;
        blocks = bytes / a.block_bytes;
        valid = after_allocate-IsValid a v s n _ (h.0) (required-pos a v payload bytes sized) (h.1);
        at = refl;
        whole = bytes-required a v payload bytes sized;
        fresh = free-unused a v s n (h.0);
        taken = allocated-after_allocate a s n _;
        same_unit = (same_arena a s n _).0;
      }

  module _ (hash : ℕ → String → ℕ) (tenant key : String) (payload rows dimension dtype : ℕ)
      (pinned force : Bool) (c : Cache F) (size : ℕ) where
    -- The state before the pages are taken.
    record Ready (d : Cache F) : Type 0 where
      pub kept : Kept F c d
      pub absent : entry key d ≡ none
      pub sized : allocation_bytes c.allocator payload ≡ some size
      pub quota :
          pinned ≡ false
          → saturating_add (bytes_of tenant d.tenant_allocated) size ≤ tenant_limit F tenant c
      pub pinned_quota : pinned ≡ true → saturating_add d.pinned_bytes size ≤ c.pinned_max_bytes

    Ready-Granted :
        (d : Cache F)
        → (r : Ready d) → (a : PageRunAllocator) (offset : ℕ)
        → (g : Pages F d.allocator a offset size) → payload ≤ size
        → Granted c tenant key payload pinned offset size (
            after F hash key size force tenant payload rows dimension dtype pinned d
              (r.kept.valid)
              (r.absent)
              a
              offset
              size
              g)
    unfolding after record_grant newcomer
    Ready-Granted d r a offset g room =
        let v = r.kept.valid in
        let tables =
          entries_after F hash key size force tenant payload rows dimension dtype pinned d v
            (r.absent) a offset size g in
        let fits =
          no_overflow F hash key size force tenant payload rows dimension dtype pinned d v
            (r.absent) a offset size g in
        let used = owner-le-any F tenant d.entries in
        let held = pinned-le-any F d.entries in
        record {
          valid =
              record_grant-IsValid F hash key size force tenant payload rows dimension dtype pinned
                d v (r.absent) a offset size g;
          held = λ k e p h. ground (arith, tables k, r.kept.held k e p h, r.absent);
          room = room;
          stored =
              newcomer F hash key size force tenant payload rows dimension dtype pinned d v
                (r.absent) a offset size g;
          found = ground (arith, tables key);
          placed = (refl, refl);
          fresh = (refl, refl, refl);
          quota = λ p. ground (
            arith,
            HashMap.get-insert string_discrete tenant tenant
                ((bytes_of tenant d.tenant_allocated + size) % usize_mod) d.tenant_allocated,
            r.quota p,
            v.tenant_books tenant,
            fits,
            used,
          );
          pinned_quota = λ p. ground (arith, r.pinned_quota p, v.pinned_books, fits, held);
        }

    same_size :
        (d : Cache F) → Ready d → (b : ℕ) → allocation_bytes d.allocator payload ≡ some b → b ≡ size
    same_size d r b h = ground (
      arith,
      r.sized,
      allocation_bytes-same_unit c.allocator d.allocator payload (r.kept.same_unit),
    )

    -- The rest of `take_pages` once the allocator has answered.
    finish : Cache F → Option (ℕ × ℕ) × PageRunAllocator → Progress F.Carrier
    finish d r = elim (r.0) [
      | none ↦ answered deferred (record d { allocator = r.1 })
      | some (offset, bytes) ↦ answered (admitted offset bytes) (
          record_grant F hash key size force tenant payload rows dimension dtype pinned offset bytes
            (record d { allocator = r.1 }))
    ]

    take_pages-Ended :
        (d : Cache F)
        → Ready d
        → Ended c tenant key payload pinned
            (take_pages F hash key size force tenant payload rows dimension dtype pinned d)
    unfolding take_pages after finish
    take_pages-Ended d r = go (allocate-Outcome d.allocator payload (r.kept.valid.arena))
      where
        give :
            (a : PageRunAllocator) (offset b : ℕ)
            → b ≡ size
            → Pages F d.allocator a offset b
            → payload ≤ b
            → allocate payload d.allocator ≡ (some (offset, b), a)
            → Ended c tenant key payload pinned
                (take_pages F hash key size force tenant payload rows dimension dtype pinned d)
        give a offset b p g room e =
            let pages = subst (Pages F d.allocator a offset) p g in
            let sized = subst (λ z. allocate payload d.allocator ≡ (some (offset, z), a)) p e in
            grant offset size _ (Ready-Granted d r a offset pages (omega (arith, p)))
              (ap (finish d) sized)

        go :
            Outcome d.allocator payload (allocate payload d.allocator)
            → Ended c tenant key payload pinned
                (take_pages F hash key size force tenant payload rows dimension dtype pinned d)
        go (refused e) = refusal deferred d (inr refl) (r.kept) (ap (finish d) e)
        go (granted b s n sized found e) =
            let room = payload-le-bytes d.allocator (r.kept.valid.arena) payload b sized in
            give _ _ b (same_size d r b sized)
              (Pages-of d.allocator (r.kept.valid.arena) payload b s n sized found) (room.0) e

    -- A loop, and then what ends.
    Looped-Ended :
        (Q : Cache F → Type 0) (d : Cache F) (r : Progress F.Carrier)
        (f : Cache F → Progress F.Carrier)
        → Kept F c d
        → Looped F Q d r
        → ((b : Cache F) → Kept F d b → Q b → Ended c tenant key payload pinned (f b))
        → Ended c tenant key payload pinned (and_then r f)
    Looped-Ended Q d r f l (stopped a b i k e) h =
        refusal a b i (Kept-trans F c d b l k) (rw e refl)
    Looped-Ended Q d r f l (done b k q e) h = rw e (h b k q)

    free_pages-Ended :
        (d : Cache F)
        → Ready d
        → Ended c tenant key payload pinned
            (free_pages F hash key size force tenant payload rows dimension dtype pinned d)
    unfolding free_pages
    free_pages-Ended d r =
        Looped-Ended (λ b. size ≤ largest_free b.allocator) d _ _ (r.kept)
          (arena_loop-Looped F hash key size force (suc (length d.entries)) pinned d (r.kept.valid)
            (omega arith))
          (λ b k q. take_pages-Ended b (later b k))
      where
        later : (b : Cache F) → Kept F d b → Ready b
        later b k = record {
          kept = Kept-trans F c d b (r.kept) k;
          absent = k.absent key (r.absent);
          sized = r.sized;
          quota = λ p. ground (arith, r.quota p, k.usage tenant);
          pinned_quota = λ p. ground (arith, r.pinned_quota p, k.pinned_usage);
        }

    make_room-Ended :
        IsValid c
        → entry key c ≡ none
        → allocation_bytes c.allocator payload ≡ some size
        → (pinned ≡ true → saturating_add c.pinned_bytes size ≤ c.pinned_max_bytes)
        → Ended c tenant key payload pinned
            (make_room F hash key size force tenant payload rows dimension dtype pinned c)
    unfolding make_room
    make_room-Ended v new sized pin =
        if_elim (Ended c tenant key payload pinned) pinned
          (λ p. free_pages-Ended c (record {
            kept = Kept-refl F c v;
            absent = new;
            sized = sized;
            quota = λ q. ground arith;
            pinned_quota = pin;
          }))
          (λ p.
            Looped-Ended
              (λ d.
                saturating_add (bytes_of tenant d.tenant_allocated) size ≤ tenant_limit F tenant c)
              c _ _ (Kept-refl F c v)
              (tenant_loop-Looped F hash key size force (suc (length c.entries)) tenant
                (tenant_limit F tenant c) c v (omega arith))
              (λ d k q. free_pages-Ended d (record {
                kept = k;
                absent = k.absent key new;
                sized = sized;
                quota = λ h. q;
                pinned_quota = λ h. ground arith;
              })))

  -- Admission of a key that is not in a valid cache: the loops end and no `expect` fails. A refusal
  -- leaves a valid cache without new entries. A grant leaves a valid cache with the new entry, loading
  -- and referenced once, whose pages hold the payload; the tenant's unpinned pages are within its
  -- limit, and the pinned ones within theirs. Either way no referenced or pinned entry is touched.
  pub admit_for_tenant-Ended :
      (hash : ℕ → String → ℕ) (tenant key : String) (payload rows dimension dtype : ℕ)
      (pinned force : Bool) (c : Cache F)
      → IsValid c
      → entry key c ≡ none
      → Ended c tenant key payload pinned
          (admit_for_tenant F hash tenant key payload rows dimension dtype pinned force c)
  unfolding admit_for_tenant admit_sized
  admit_for_tenant-Ended hash tenant key payload rows dimension dtype pinned force c v new =
      go (allocation_bytes c.allocator payload) refl
    where
      deferral : Ended c tenant key payload pinned (answered deferred c)
      deferral = refusal deferred c (inr refl) (Kept-refl F c v) refl

      go :
          (o : Option ℕ)
          → allocation_bytes c.allocator payload ≡ o
          → Ended c tenant key payload pinned
              (admit_sized F hash tenant key payload rows dimension dtype pinned force o c)
      go none e = deferral
      go (some size) e =
          if_elim (Ended c tenant key payload pinned) (ltb (capacity c.allocator) size)
            (λ p. deferral)
            (λ p.
              if_elim (Ended c tenant key payload pinned)
                (pinned && ltb c.pinned_max_bytes (saturating_add c.pinned_bytes size))
                (λ q. deferral)
                (λ q.
                  make_room-Ended hash tenant key payload rows dimension dtype pinned force c size v
                    new e (λ h. ground arith)))
