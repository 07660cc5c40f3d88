-- ===== src/Tilemaxsimd/Cache/Grant.antt =====
-- `admit_for_tenant` as a whole: a grant owns fresh pages, keeps the books and the quotas, and takes
-- nothing from an entry in use; a refusal changes nothing that is in use.
use Prim.Native.String.{String}
use native.Mathlib.Nat.{mul-mod_left, mul-le-mul_right}
use vector_chord.Base.{
  ℕ, ◌+◌, ◌*◌, ◌/◌, ◌%◌, ◌≤◌, ◌<◌, ◌≡◌, ◌≢◌, Bool, false, none, some, [], ◌∷◌, ite, arith, ap, ◌∙◌,
  sym, subst, ℕ_discrete,
}
use vector_chord.Base.Text.{string_discrete}
use vector_chord.Base.Float.{F64}
use vector_chord.Base.HashMap
use vector_chord.Base.HashMap.{HashMap}
use vector_chord.Tilemaxsimd.Allocator
use vector_chord.Tilemaxsimd.Allocator.{
  PageRunAllocator, usize_mod, allocated_blocks, allocate, allocation_bytes,
}
use vector_chord.Tilemaxsimd.Allocator.Invariant.{used_run}
use vector_chord.Tilemaxsimd.Allocator.Allocate.{mul-div_self}
use vector_chord.Tilemaxsimd.Cache.{Cache, Entry, bytes_of, record_grant, candidate_priority}
use vector_chord.Tilemaxsimd.Cache.Invariant.{
  IsValid, Owns, entry, any_bytes, bytes_if_owner, bytes_if_pinned,
}

module _ (F : F64) where
  pub owner-le-any :
      (t : String) (m : HashMap String (Entry F))
      → HashMap.sum (bytes_if_owner t) m ≤ HashMap.sum any_bytes m
  unfolding HashMap.sum
  owner-le-any t [] = omega arith
  owner-le-any t ((k, e) ∷ m) = ground (arith, owner-le-any t m)

  pub pinned-le-any :
      (m : HashMap String (Entry F)) → HashMap.sum bytes_if_pinned m ≤ HashMap.sum any_bytes m
  unfolding HashMap.sum
  pinned-le-any [] = omega arith
  pinned-le-any ((k, e) ∷ m) = ground (arith, pinned-le-any m)

  -- The pages of a grant: blocks of the arena that were in no allocated run, and now are one.
  pub record Pages (a b : PageRunAllocator) (offset bytes : ℕ) : Type 0 where
    pub start : ℕ
    pub blocks : ℕ
    pub valid : Allocator.Invariant.IsValid b
    pub at : offset ≡ start * a.block_bytes
    pub whole : bytes ≡ blocks * a.block_bytes
    pub fresh : used_run a start ≡ none
    pub taken : b.allocated ≡ HashMap.insert ℕ_discrete start blocks a.allocated
    pub same_unit : b.block_bytes ≡ a.block_bytes

  module _ (hash : ℕ → String → ℕ) (key : String) (size : ℕ) (force : Bool) (tenant : String)
      (payload rows dimension dtype : ℕ) (pinned : Bool) (c : Cache F) (v : IsValid c)
      (new : entry key c ≡ none) (a : PageRunAllocator) (offset bytes : ℕ)
      (g : Pages c.allocator a offset bytes) where
    unfoldable pub after : Cache F
    after =
        record_grant F hash key size force tenant payload rows dimension dtype pinned offset bytes
          (record c { allocator = a })

    unfoldable pub newcomer : Entry F
    newcomer = record {
      offset = offset;
      allocated_bytes = bytes;
      payload_bytes = payload;
      rows = rows;
      dimension = dimension;
      dtype = dtype;
      references = 1;
      pinned = pinned;
      ready = false;
      owner_tenant = tenant;
      priority = candidate_priority F key bytes hash (record c { allocator = a });
    }

    newcomer-Owns : Owns a newcomer
    unfolding newcomer
    newcomer-Owns = record {
      aligned = rw (g.at, g.same_unit) (mul-mod_left g.start c.allocator.block_bytes);
      blocks = g.blocks;
      run =
          rw (g.at, g.same_unit, mul-div_self g.start c.allocator.block_bytes v.arena.unit, g.taken)
            (ground (
              arith,
              HashMap.get-insert ℕ_discrete g.start g.start g.blocks c.allocator.allocated,
            ));
      whole = rw (g.same_unit) (g.whole);
    }

    module _ (e : Entry F) (o : Owns c.allocator e) where
      elsewhere : e.offset / c.allocator.block_bytes ≢ g.start
      elsewhere p = ground (arith, o.run, g.fresh)

      still-Owns : Owns a e
      still-Owns = record {
        aligned = rw (g.same_unit) (o.aligned);
        blocks = o.blocks;
        run =
            rw (g.same_unit, g.taken)
              (ground (
                arith,
                o.run,
                elsewhere,
                HashMap.get-insert ℕ_discrete (e.offset / c.allocator.block_bytes) g.start g.blocks
                    c.allocator.allocated,
              ));
        whole = rw (g.same_unit) (o.whole);
      }

      apart-offset : e.offset ≢ offset
      apart-offset p =
          elsewhere (rw (p, g.at) (mul-div_self g.start c.allocator.block_bytes v.arena.unit))

    pub entries_after :
        (k : String) → entry k after ≡ ite (string_discrete key k) (some newcomer) (entry k c)
    unfolding after record_grant newcomer
    entries_after k = HashMap.get-insert string_discrete k key _ c.entries

    after-Owns : (k : String) (e : Entry F) → entry k after ≡ some e → Owns a e
    after-Owns k e h = elim (string_discrete key k) [
      | yes p ↦ subst (Owns a) (is_new p) newcomer-Owns
      | no p ↦ still-Owns e (v.owns k e (ground (arith, entries_after k)))
    ]
      where
        is_new : key ≡ k → newcomer ≡ e
        is_new p = ground (arith, entries_after k)

    after-apart :
        (j k : String) (e f : Entry F)
        → entry j after ≡ some e
        → entry k after ≡ some f
        → e.offset ≡ f.offset
        → j ≡ k
    unfolding newcomer
    after-apart j k e f h i q = elim (string_discrete key j) [
      | yes p ↦ elim (string_discrete key k) [
        | yes t ↦ sym p ∙ t
        | no t ↦ absurd (
            apart-offset f (v.owns k f (ground (arith, entries_after k)))
              (ground (arith, entries_after j)))
      ]
      | no p ↦ elim (string_discrete key k) [
        | yes t ↦ absurd (
            apart-offset e (v.owns j e (ground (arith, entries_after j)))
              (ground (arith, entries_after k)))
        | no t ↦
            v.apart j k e f (ground (arith, entries_after j)) (ground (arith, entries_after k)) q
      ]
    ]

    blocks_after : allocated_blocks a ≡ g.blocks + allocated_blocks c.allocator
    unfolding allocated_blocks
    blocks_after = rw (g.taken) (
        HashMap.sum-insert_new ℕ_discrete (λ (s n : ℕ). n) g.start g.blocks c.allocator.allocated
          g.fresh)

    held_after : allocated_blocks a * a.block_bytes ≡ bytes + HashMap.sum any_bytes c.entries
    held_after =
        let counted = ap (λ (n : ℕ). n * a.block_bytes) blocks_after in
        let scaled = ap (λ (u : ℕ). (g.blocks + allocated_blocks c.allocator) * u) g.same_unit in
        omega (arith, counted ∙ scaled, v.no_leak, g.whole)

    after-no_leak : HashMap.sum any_bytes after.entries ≡ allocated_blocks a * a.block_bytes
    unfolding after record_grant
    after-no_leak =
        HashMap.sum-insert_new string_discrete any_bytes key _ c.entries new ∙ sym held_after

    -- None of the books can overflow: together the entries hold no more than the arena.
    pub no_overflow : bytes + HashMap.sum any_bytes c.entries < usize_mod
    no_overflow =
        let within : allocated_blocks a ≤ a.block_count = omega (arith, g.valid.total) in
        omega (arith, held_after, mul-le-mul_right a.block_bytes within, g.valid.small)

    pub after-tenant_books :
        (t : String)
        → bytes_of t after.tenant_allocated ≡ HashMap.sum (bytes_if_owner t) after.entries
    unfolding after record_grant newcomer
    after-tenant_books t = ground (
      arith,
      HashMap.get-insert string_discrete t tenant
          ((bytes_of tenant c.tenant_allocated + bytes) % usize_mod) c.tenant_allocated,
      HashMap.sum-insert_new string_discrete (bytes_if_owner t) key newcomer c.entries new,
      v.tenant_books t,
      v.tenant_books tenant,
      owner-le-any t c.entries,
      no_overflow,
    )

    pub after-pinned_books : after.pinned_bytes ≡ HashMap.sum bytes_if_pinned after.entries
    unfolding after record_grant newcomer
    after-pinned_books = ground (
      arith,
      HashMap.sum-insert_new string_discrete bytes_if_pinned key newcomer c.entries new,
      v.pinned_books,
      pinned-le-any c.entries,
      no_overflow,
    )

    pub record_grant-IsValid : IsValid after
    unfolding after record_grant
    record_grant-IsValid = record {
      arena = g.valid;
      keys_once = HashMap.insert-IsDistinct string_discrete key _ c.entries v.keys_once;
      tenants_once =
          HashMap.insert-IsDistinct string_discrete tenant _ c.tenant_allocated v.tenants_once;
      owns = after-Owns;
      apart = after-apart;
      no_leak = after-no_leak;
      tenant_books = after-tenant_books;
      pinned_books = after-pinned_books;
    }
