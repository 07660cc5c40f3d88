-- ===== src/Tilemaxsimd/Cache/Evict.antt =====
-- `remove_entry` on a valid cache: it succeeds, and every book stays right.
use Prim.Native.String.{String}
use native.Mathlib.Nat.{div-add-mod}
use vector_chord.Base.{
  ℕ, ◌-◌, ◌*◌, ◌/◌, ◌≤◌, ◌≡◌, ◌≢◌, if◌then◌else◌, some, ite, ℕ_discrete, arith, refl, ap, ◌∙◌,
}
use vector_chord.Base.Text.{string_discrete}
use vector_chord.Base.Float.{F64}
use vector_chord.Base.HashMap
use vector_chord.Base.HashMap.{HashMap}
use vector_chord.Tilemaxsimd.Allocator
use vector_chord.Tilemaxsimd.Allocator.{PageRunAllocator, Result, ok, err, allocated_blocks}
use vector_chord.Tilemaxsimd.Allocator.Requests.{release_lem}
use vector_chord.Tilemaxsimd.Allocator.Release.{Released}
use vector_chord.Tilemaxsimd.Cache.{bytes_of, charge_less, remove_entry, remove_found, Entry, Cache}
use vector_chord.Tilemaxsimd.Cache.Invariant.{
  Owns, IsValid, any_bytes, bytes_if_owner, bytes_if_pinned, entry,
}

module _ (F : F64) where
  pub charge_less-once :
      (t : String) (n : ℕ) (m : HashMap String ℕ)
      → HashMap.IsDistinct string_discrete m
      → HashMap.IsDistinct string_discrete (charge_less F t n m)
  unfolding charge_less
  charge_less-once t n m d = ground (
    arith,
    HashMap.remove-IsDistinct string_discrete t m d,
    HashMap.insert-IsDistinct string_discrete t (bytes_of t m - n) m d,
  )

  pub bytes_of-charge_less :
      (t u : String) (n : ℕ) (m : HashMap String ℕ)
      → HashMap.IsDistinct string_discrete m
      → bytes_of u (charge_less F t n m)
        ≡ ite (string_discrete t u) (bytes_of u m - n) (bytes_of u m)
  unfolding charge_less
  bytes_of-charge_less t u n m d = ground (
    arith,
    HashMap.get-remove_self string_discrete t m d,
    HashMap.get-remove_ne string_discrete u t m,
    HashMap.get-insert string_discrete u t (bytes_of t m - n) m,
  )

  -- What the removal of the entry of `key` has done.
  pub record Removed (c : Cache F) (key : String) (e : Entry F) (r : Result (Entry F) × Cache F)
      : Type 0 where
    pub after : Cache F
    pub result : r ≡ (ok e, after)
    pub valid : IsValid after
    pub entries_after : after.entries ≡ HashMap.remove string_discrete key c.entries
    pub same_unit : after.allocator.block_bytes ≡ c.allocator.block_bytes
    pub same_reservations : after.tenant_reservations ≡ c.tenant_reservations
    pub same_default : after.default_tenant_max_bytes ≡ c.default_tenant_max_bytes
    pub same_pinned_max : after.pinned_max_bytes ≡ c.pinned_max_bytes
    pub usage : (t : String) → bytes_of t after.tenant_allocated ≤ bytes_of t c.tenant_allocated
    pub pinned_usage : after.pinned_bytes ≤ c.pinned_bytes

  module _ (c : Cache F) (key : String) (e : Entry F) (v : IsValid c)
      (here : entry key c ≡ some e) where
    rest : HashMap String (Entry F)
    rest = HashMap.remove string_discrete key c.entries

    other : (k : String) (f : Entry F) → HashMap.get string_discrete k rest ≡ some f → key ≢ k
    unfolding rest
    other k f h =
        λ p. ground (arith, HashMap.get-remove_self string_discrete key c.entries v.keys_once)

    there :
        (k : String) (f : Entry F)
        → HashMap.get string_discrete k rest ≡ some f
        → entry k c ≡ some f
    unfolding rest
    there k f h = ground (arith, other k f h, HashMap.get-remove_ne string_discrete k key c.entries)

    charge-le : e.allocated_bytes ≤ bytes_of e.owner_tenant c.tenant_allocated
    charge-le = ground (
      arith,
      v.tenant_books e.owner_tenant,
      HashMap.weight-le-sum string_discrete (bytes_if_owner e.owner_tenant) key e c.entries here,
    )

    module _
        (d : Released c.allocator
          (e.offset / c.allocator.block_bytes)
          (v.owns key e here).blocks
          (Allocator.release e.offset c.allocator)) where
      after : Cache F
      unfolding rest
      after = record c {
        allocator = d.after;
        entries = rest;
        pinned_bytes = if e.pinned then c.pinned_bytes - e.allocated_bytes else c.pinned_bytes;
        tenant_allocated = charge_less F e.owner_tenant e.allocated_bytes c.tenant_allocated;
      }

      after-Owns :
          (k : String) (f : Entry F) → HashMap.get string_discrete k rest ≡ some f → Owns d.after f
      after-Owns k f h =
          let o = v.owns k f (there k f h) in
          record {
            aligned = rw (d.same_unit) (o.aligned);
            blocks = o.blocks;
            run =
                rw (d.same_unit, d.used_after)
                  (HashMap.get-remove_ne ℕ_discrete (f.offset / c.allocator.block_bytes)
                      (e.offset / c.allocator.block_bytes) c.allocator.allocated (differ o)
                    ∙ o.run);
            whole = rw (d.same_unit) (o.whole);
          }
        where
          differ :
              Owns c.allocator f
              → e.offset / c.allocator.block_bytes ≢ f.offset / c.allocator.block_bytes
          differ o p = other k f h (
              v.apart key k e f here (there k f h) (
                ground (
                  arith,
                  div-add-mod e.offset c.allocator.block_bytes,
                  div-add-mod f.offset c.allocator.block_bytes,
                  (v.owns key e here).aligned,
                  o.aligned,
                )))

      after-no_leak : HashMap.sum any_bytes rest ≡ allocated_blocks d.after * d.after.block_bytes
      unfolding rest allocated_blocks
      after-no_leak =
          let o = v.owns key e here in
          let blocks =
            HashMap.sum-remove ℕ_discrete (λ (s n : ℕ). n) (e.offset / c.allocator.block_bytes)
              o.blocks c.allocator.allocated o.run in
          rw (d.same_unit, d.used_after)
            (omega (
              arith,
              HashMap.sum-remove string_discrete any_bytes key e c.entries here,
              v.no_leak,
              o.whole,
              ap (λ (n : ℕ). n * c.allocator.block_bytes) blocks,
            ))

      after-tenant_books :
          (t : String)
          → bytes_of t (charge_less F e.owner_tenant e.allocated_bytes c.tenant_allocated)
            ≡ HashMap.sum (bytes_if_owner t) rest
      unfolding rest
      after-tenant_books t = ground (
        arith,
        bytes_of-charge_less e.owner_tenant t e.allocated_bytes c.tenant_allocated v.tenants_once,
        HashMap.sum-remove string_discrete (bytes_if_owner t) key e c.entries here,
        v.tenant_books t,
      )

      after-IsValid : IsValid after
      unfolding after rest
      after-IsValid = record {
        arena = d.valid;
        keys_once = HashMap.remove-IsDistinct string_discrete key c.entries v.keys_once;
        tenants_once =
            charge_less-once e.owner_tenant e.allocated_bytes c.tenant_allocated v.tenants_once;
        owns = after-Owns;
        apart = λ j k f g p q h. v.apart j k f g (there j f p) (there k g q) h;
        no_leak = after-no_leak;
        tenant_books = after-tenant_books;
        pinned_books = ground (
          arith,
          HashMap.sum-remove string_discrete bytes_if_pinned key e c.entries here,
          v.pinned_books,
        );
      }

      removed : Removed c key e (remove_entry F key c)
      unfolding after rest remove_entry remove_found
      removed = record {
        after = after;
        result = ground (arith, here, d.result);
        valid = after-IsValid;
        entries_after = refl;
        same_unit = d.same_unit;
        same_reservations = refl;
        same_default = refl;
        same_pinned_max = refl;
        usage = λ t. ground (
          arith,
          bytes_of-charge_less e.owner_tenant t e.allocated_bytes c.tenant_allocated v.tenants_once,
        );
        pinned_usage = ground arith;
      }

    -- An entry that is there is removed, and its pages are free again.
    pub remove_entry-Removed : Removed c key e (remove_entry F key c)
    remove_entry-Removed =
        let o = v.owns key e here in
        removed ((release_lem c.allocator e.offset v.arena).2 o.blocks o.aligned o.run)
