-- ===== src/Tilemaxsimd/Permits/Limits.antt =====
-- The limits hold at every time: the counts are those of the permits that are out.
use Prim.Native.String.{String}
use vector_chord.Base.{
  ℕ, ◌+◌, ◌-◌, ◌%◌, ◌≤◌, ◌<◌, ◌≡◌, none, List, [], ◌∷◌, ◌++◌, length, length-append, ite, arith,
  refl,
}
use vector_chord.Base.Text.{string_discrete}
use vector_chord.Base.HashMap
use vector_chord.Base.HashMap.{HashMap}
use vector_chord.Tilemaxsimd.Allocator.{usize_mod}
use vector_chord.Tilemaxsimd.Permits.{
  PendingAdmission, new, count_of, try_acquire, less_one, drop_permit,
}

-- The permits that are out, by their tenants, and the state: from `new`, by permits that are acquired
-- and dropped in any order. A rejection changes nothing.
pub data Reachable (max_total max_tenant : ℕ) : List String → PendingAdmission → Type 0 where
  started : Reachable max_total max_tenant [] (new max_total max_tenant)
  acquired :
      (permits : List String) (a b : PendingAdmission) (tenant : String)
      → Reachable max_total max_tenant permits a
      → try_acquire tenant a ≡ (none, b)
      → Reachable max_total max_tenant (tenant ∷ permits) b
  dropped :
      (before after : List String) (a : PendingAdmission) (tenant : String)
      → Reachable max_total max_tenant (before ++ (tenant ∷ after)) a
      → Reachable max_total max_tenant (before ++ after) (drop_permit tenant a)

-- How many of the permits are the tenant's.
abbrev pub permits_of : String → List String → ℕ
permits_of tenant [] = 0
permits_of tenant (t ∷ ts) = ite (string_discrete t tenant) 1 0 + permits_of tenant ts

permits_of-append :
    (tenant : String) (xs ys : List String)
    → permits_of tenant (xs ++ ys) ≡ permits_of tenant xs + permits_of tenant ys
permits_of-append tenant [] ys = omega arith
permits_of-append tenant (x ∷ xs) ys = omega (arith, permits_of-append tenant xs ys)

-- The books of the permits, within the limits.
pub record IsWithin (max_total max_tenant : ℕ) (permits : List String) (a : PendingAdmission)
    : Type 0 where
  pub same_total : a.max_total ≡ max_total
  pub same_tenant : a.max_tenant ≡ max_tenant
  pub total : a.total ≡ length permits
  pub counts : (t : String) → count_of t a.tenants ≡ permits_of t permits
  pub few : a.total ≤ max_total
  pub few_each : (t : String) → count_of t a.tenants ≤ max_tenant
  pub gauge : a.pending_requests ≡ a.total
  pub once : HashMap.IsDistinct string_discrete a.tenants

count_of-less_one :
    (t u : String) (m : HashMap String ℕ)
    → HashMap.IsDistinct string_discrete m
    → (count_of u (less_one t m) ≡ ite (string_discrete t u) (count_of u m - 1) (count_of u m))
      × HashMap.IsDistinct string_discrete (less_one t m)
unfolding less_one
count_of-less_one t u m d = ground (
  arith,
  HashMap.get-remove_self string_discrete t m d,
  HashMap.get-remove_ne string_discrete u t m,
  HashMap.get-insert string_discrete u t (count_of t m - 1) m,
  HashMap.remove-IsDistinct string_discrete t m d,
  HashMap.insert-IsDistinct string_discrete t (count_of t m - 1) m d,
)

-- What a permit means for the state.
try_acquire-granted :
    (a b : PendingAdmission) (tenant : String)
    → try_acquire tenant a ≡ (none, b)
    → (a.total < a.max_total)
      × (count_of tenant a.tenants < a.max_tenant)
      × (b.total ≡ (a.total + 1) % usize_mod)
      × (b.tenants
          ≡ HashMap.insert string_discrete tenant
              ((count_of tenant a.tenants + 1) % usize_mod)
              a.tenants)
      × (b.max_total ≡ a.max_total)
      × (b.max_tenant ≡ a.max_tenant)
      × (b.pending_requests ≡ (a.total + 1) % usize_mod)
unfolding try_acquire
try_acquire-granted a b tenant e = ground arith

module _ (max_total max_tenant : ℕ) (small : max_total < usize_mod)
    (small_each : max_tenant < usize_mod) where
  acquired-IsWithin :
      (permits : List String) (a b : PendingAdmission) (tenant : String)
      → IsWithin max_total max_tenant permits a
      → try_acquire tenant a ≡ (none, b)
      → IsWithin max_total max_tenant (tenant ∷ permits) b
  acquired-IsWithin permits a b tenant w e =
      let (room, share, total, tenants, m, n, gauge) = try_acquire-granted a b tenant e in
      let counted : (t : String) → count_of t b.tenants ≡ permits_of t (tenant ∷ permits) = λ t.
        rw tenants (
          ground (
            arith,
            HashMap.get-insert string_discrete t tenant
                ((count_of tenant a.tenants + 1) % usize_mod) a.tenants,
            w.counts t,
            w.counts tenant,
            w.same_tenant,
            share,
          )) in
      record {
        same_total = omega (arith, m, w.same_total);
        same_tenant = omega (arith, n, w.same_tenant);
        total = omega (arith, total, w.total, room, w.same_total);
        counts = counted;
        few = omega (arith, total, room, w.same_total);
        few_each = λ t.
            ground
              (arith, counted t, w.counts t, w.few_each t, w.counts tenant, share, w.same_tenant);
        gauge = omega (arith, gauge, total);
        once = rw tenants (HashMap.insert-IsDistinct string_discrete tenant _ a.tenants w.once);
      }

  dropped-IsWithin :
      (before after : List String) (a : PendingAdmission) (tenant : String)
      → IsWithin max_total max_tenant (before ++ (tenant ∷ after)) a
      → IsWithin max_total max_tenant (before ++ after) (drop_permit tenant a)
  unfolding drop_permit
  dropped-IsWithin before after a tenant w = record {
    same_total = w.same_total;
    same_tenant = w.same_tenant;
    total =
        omega (arith, w.total, length-append before (tenant ∷ after), length-append before after);
    counts = λ t. ground (
      arith,
      (count_of-less_one tenant t a.tenants w.once).0,
      w.counts t,
      permits_of-append t before (tenant ∷ after),
      permits_of-append t before after,
    );
    few = omega (arith, w.few);
    few_each = λ t. ground (arith, (count_of-less_one tenant t a.tenants w.once).0, w.few_each t);
    gauge = refl;
    once = (count_of-less_one tenant tenant a.tenants w.once).1;
  }

  -- Whatever permits are acquired and dropped, and in whatever order: the total is the number of
  -- permits that are out, each tenant's count is the number of its permits, and neither is above its
  -- limit; the gauge of pending requests shows the total.
  pub Reachable-IsWithin :
      (permits : List String) (a : PendingAdmission)
      → Reachable max_total max_tenant permits a
      → IsWithin max_total max_tenant permits a
  unfolding new HashMap.get
  Reachable-IsWithin _ _ started = record {
    same_total = refl;
    same_tenant = refl;
    total = refl;
    counts = λ t. refl;
    few = omega arith;
    few_each = λ t. omega arith;
    gauge = refl;
    once = tt;
  }
  Reachable-IsWithin _ b (acquired permits a _ tenant r e) =
      acquired-IsWithin permits a b tenant (Reachable-IsWithin permits a r) e
  Reachable-IsWithin _ _ (dropped before after a tenant r) =
      dropped-IsWithin before after a tenant (Reachable-IsWithin (before ++ (tenant ∷ after)) a r)
