-- ===== src/Tilemaxsimd/HostCache/Removal.antt =====
-- The invariant of the host cache, and `remove`: the books stay right.
use Prim.Native.String.{String}
use vector_chord.Base.{
  ℕ, ◌+◌, ◌-◌, ◌≤◌, ◌<◌, ◌≡◌, inl, inr, Option, none, some, length, ite, arith, refl, sym, subst,
  ap, ◌∙◌, Option-cases,
}
use vector_chord.Base.Text.{string_discrete}
use vector_chord.Base.HashMap
use vector_chord.Base.HashMap.{HashMap}
use vector_chord.Base.Float.{F64}
use vector_chord.Tilemaxsimd.Allocator.{usize_mod}
use vector_chord.Tilemaxsimd.Cache.{bytes_of, charge_less}
use vector_chord.Tilemaxsimd.Cache.Evict.{charge_less-once, bytes_of-charge_less}
use vector_chord.Tilemaxsimd.HostCache.{Cache, Entry, remove, remove_found}

module _ (F : F64) where
  abbrev pub size_of : String → Entry F → ℕ
  size_of k e = length e.payload

  abbrev pub size_if_owner : String → String → Entry F → ℕ
  size_if_owner tenant k e = ite (string_discrete e.owner_tenant tenant) (length e.payload) 0

  abbrev pub entry : String → Cache F → Option (Entry F)
  entry key c = HashMap.get string_discrete key c.entries

  -- The books are the sums over the entries, and within the limits.
  pub record IsValid (c : Cache F) : Type 0 where
    pub small : c.maximum_bytes + c.maximum_bytes < usize_mod
    pub keys_once : HashMap.IsDistinct string_discrete c.entries
    pub tenants_once : HashMap.IsDistinct string_discrete c.tenant_bytes
    pub total : c.current_bytes ≡ HashMap.sum size_of c.entries
    pub books : (t : String) → bytes_of t c.tenant_bytes ≡ HashMap.sum (size_if_owner t) c.entries
    pub room : c.current_bytes ≤ c.maximum_bytes
    pub shares : (t : String) → bytes_of t c.tenant_bytes ≤ c.default_tenant_max_bytes

  -- What removals make of a cache.
  pub record Kept (c d : Cache F) : Type 0 where
    pub valid : IsValid d
    pub absent : (k : String) → entry k c ≡ none → entry k d ≡ none
    pub fewer : length d.entries ≤ length c.entries
    pub same_maximum : d.maximum_bytes ≡ c.maximum_bytes
    pub same_default : d.default_tenant_max_bytes ≡ c.default_tenant_max_bytes
    pub usage : (t : String) → bytes_of t d.tenant_bytes ≤ bytes_of t c.tenant_bytes

  pub Kept-refl : (c : Cache F) → IsValid c → Kept c c
  Kept-refl c v = record {
    valid = v;
    absent = λ k p. p;
    fewer = omega arith;
    same_maximum = refl;
    same_default = refl;
    usage = λ t. omega arith;
  }

  pub Kept-trans : (c d g : Cache F) → Kept c d → Kept d g → Kept c g
  Kept-trans c d g p q = record {
    valid = q.valid;
    absent = λ k h. q.absent k (p.absent k h);
    fewer = omega (arith, p.fewer, q.fewer);
    same_maximum = q.same_maximum ∙ p.same_maximum;
    same_default = q.same_default ∙ p.same_default;
    usage = λ t. omega (arith, p.usage t, q.usage t);
  }

  -- The priorities and the counters play no part in it.
  pub same_tables-Kept :
      (c d : Cache F)
      → d.maximum_bytes ≡ c.maximum_bytes
      → d.current_bytes ≡ c.current_bytes
      → d.entries ≡ c.entries
      → d.tenant_bytes ≡ c.tenant_bytes
      → d.default_tenant_max_bytes ≡ c.default_tenant_max_bytes
      → IsValid c
      → Kept c d
  same_tables-Kept c d p q r s t v = record {
    valid = record {
      small = rw p (v.small);
      keys_once = rw r (v.keys_once);
      tenants_once = rw s (v.tenants_once);
      total = rw (q, r) (v.total);
      books = λ u. rw (s, r) (v.books u);
      room = rw (q, p) (v.room);
      shares = λ u. rw (s, t) (v.shares u);
    };
    absent = λ k h. rw r h;
    fewer = rw r (omega arith);
    same_maximum = p;
    same_default = t;
    usage = λ u. rw s (omega arith);
  }

  module _ (c : Cache F) (key : String) (e : Entry F) (v : IsValid c)
      (here : entry key c ≡ some e) where
    abbrev pub without : Cache F
    without = record c {
      entries = HashMap.remove string_discrete key c.entries;
      current_bytes = c.current_bytes - length e.payload;
      tenant_bytes = charge_less F e.owner_tenant (length e.payload) c.tenant_bytes;
    }

    without-books :
        (t : String)
        → bytes_of t without.tenant_bytes ≡ HashMap.sum (size_if_owner t) without.entries
    without-books t = ground (
      arith,
      bytes_of-charge_less F e.owner_tenant t (length e.payload) c.tenant_bytes v.tenants_once,
      HashMap.sum-remove string_discrete (size_if_owner t) key e c.entries here,
      v.books t,
    )

    usage_without : (t : String) → bytes_of t without.tenant_bytes ≤ bytes_of t c.tenant_bytes
    usage_without t = ground (
      arith,
      bytes_of-charge_less F e.owner_tenant t (length e.payload) c.tenant_bytes v.tenants_once,
    )

    absent_without : (k : String) → entry k c ≡ none → entry k without ≡ none
    absent_without k h =
        HashMap.get-remove_ne string_discrete k key c.entries (λ p. ground (arith, here)) ∙ h

    pub without-Kept : Kept c without
    without-Kept = record {
      valid = record {
        small = v.small;
        keys_once = HashMap.remove-IsDistinct string_discrete key c.entries v.keys_once;
        tenants_once =
            charge_less-once F e.owner_tenant (length e.payload) c.tenant_bytes v.tenants_once;
        total =
            omega (arith, HashMap.sum-remove string_discrete size_of key e c.entries here, v.total);
        books = without-books;
        room = omega (arith, v.room);
        shares = λ t. omega (arith, v.shares t, usage_without t);
      };
      absent = absent_without;
      fewer = omega (arith, HashMap.length-remove string_discrete key e c.entries here);
      same_maximum = refl;
      same_default = refl;
      usage = usage_without;
    }

    gone : entry key without ≡ none
    gone = HashMap.get-remove_self string_discrete key c.entries v.keys_once

    pub remove-found : remove F key c ≡ (some e, without)
    unfolding remove remove_found
    remove-found = ap (λ o. remove_found F key o c) here

  -- `remove` leaves a valid cache without the key.
  pub remove-Kept :
      (key : String) (c : Cache F)
      → IsValid c
      → Kept c (remove F key c).1 × (entry key (remove F key c).1 ≡ none)
  unfolding remove remove_found
  remove-Kept key c v = elim (Option-cases (entry key c)) [
    | inl n ↦
        subst (λ (r : Option (Entry F) × Cache F). Kept c r.1 × (entry key r.1 ≡ none))
          (sym (ap (λ o. remove_found F key o c) n)) (Kept-refl c v, n)
    | inr (e, h) ↦
        subst (λ (r : Option (Entry F) × Cache F). Kept c r.1 × (entry key r.1 ≡ none))
          (sym (remove-found c key e v h)) (without-Kept c key e v h, gone c key e v h)
  ]
