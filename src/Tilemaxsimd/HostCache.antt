-- ===== src/Tilemaxsimd/HostCache.antt =====
-- `HostCache` of services/tilemaxsimd/src/shard.rs: the tensors that are kept in the memory of the host,
-- with a share for each tenant. Priorities are floats, whose operations are a parameter.
pub mod Removal
pub mod Insertion
mod Tests
use Prim.Native.String.{String}
use vector_chord.Base.{
  ℕ, zero, suc, ◌+◌, ◌-◌, ◌*◌, ◌/◌, ◌%◌, max, Bool, true, false, ◌&&◌, Option, none, some, List, [],
  ◌∷◌, length, ltb, ◌==◌, if◌then◌else◌, ite,
}
use vector_chord.Base.Text.{string_discrete}
use vector_chord.Base.HashMap
use vector_chord.Base.HashMap.{HashMap}
use vector_chord.Base.Float.{F64}
use vector_chord.Tilemaxsimd.Allocator.{usize_mod}
use vector_chord.Tilemaxsimd.Sketch
use vector_chord.Tilemaxsimd.Sketch.{TinyLfu, increment, estimate}
use vector_chord.Tilemaxsimd.Cache.{bytes_of, saturating_add, charge_less}

pub record HostEntry (F : Type 0) : Type 0 where
  pub payload : List ℕ
  pub priority : F
  pub owner_tenant : String

pub record HostCache (F : Type 0) : Type 0 where
  pub maximum_bytes : ℕ
  pub current_bytes : ℕ
  pub entries : HashMap String (HostEntry F)
  pub sketch : TinyLfu
  pub inflation : F
  pub tenant_bytes : HashMap String ℕ
  pub default_tenant_max_bytes : ℕ
  pub hits : ℕ
  pub misses : ℕ
  pub evictions : ℕ
  pub admission_rejections : ℕ

-- How far `put` has come: on, with the priority of the newcomer, or back. `panicked` is a failed
-- `expect`, `out_of_fuel` the model's own.
pub data Put (F : Type 0) : Type 0 where
  going : F → HostCache F → Put F
  returned : HostCache F → Put F
  panicked out_of_fuel : Put F

abbrev pub and_then : {F : Type 0} → Put F → (F → HostCache F → Put F) → Put F
and_then (going p c) f = f p c
and_then (returned c) f = returned c
and_then panicked f = panicked
and_then out_of_fuel f = out_of_fuel

module _ (F : F64) where
  open F use {Carrier, of_ℕ, add, div, le, lt, total_lt}

  abbrev pub Cache : Type 0
  Cache = HostCache Carrier

  abbrev pub Entry : Type 0
  Entry = HostEntry Carrier

  pub new : ℕ → ℕ → Cache
  new maximum_bytes tenant_max_percent = record {
    maximum_bytes = maximum_bytes;
    current_bytes = 0;
    entries = [];
    sketch = Sketch.new 4096;
    inflation = of_ℕ 0;
    tenant_bytes = [];
    default_tenant_max_bytes = (maximum_bytes * tenant_max_percent) % usize_mod / 100;
    hits = 0;
    misses = 0;
    evictions = 0;
    admission_rejections = 0;
  }

  found : String → ℕ → Option Entry → Cache → Option (List ℕ) × Cache
  found key frequency none c = (none, record c { misses = (c.misses + 1) % usize_mod })
  found key frequency (some e) c = (
    some (e.payload),
    record c {
      entries =
          HashMap.insert string_discrete key
            (record e {
              priority = add c.inflation (div (of_ℕ frequency) (of_ℕ (length e.payload)));
            })
            c.entries;
      hits = (c.hits + 1) % usize_mod;
    },
  )

  pub get : (hash : ℕ → String → ℕ) → String → Cache → Option (List ℕ) × Cache
  unfolding found
  get hash key c =
      let (frequency, sketch) = increment hash key c.sketch in
      found key frequency (HashMap.get string_discrete key c.entries) (record c { sketch = sketch })

  remove_found : String → Option Entry → Cache → Option Entry × Cache
  remove_found key none c = (none, c)
  remove_found key (some e) c = (
    some e,
    record c {
      entries = HashMap.remove string_discrete key c.entries;
      current_bytes = c.current_bytes - length e.payload;
      tenant_bytes = charge_less F e.owner_tenant (length e.payload) c.tenant_bytes;
    },
  )

  pub remove : String → Cache → Option Entry × Cache
  unfolding remove_found
  remove key c = remove_found key (HashMap.get string_discrete key c.entries) c

  abbrev pub any_entry : Entry → Bool
  any_entry e = true

  abbrev pub owned_by : String → Entry → Bool
  owned_by tenant e = ite (string_discrete e.owner_tenant tenant) true false

  -- `filter` and `min_by`: of several least priorities, the first.
  pub least :
      (Entry → Bool) → Option (String × Entry) → HashMap String Entry → Option (String × Entry)
  least keep best [] = best
  least keep none ((k, e) ∷ m) = least keep (if keep e then some (k, e) else none) m
  least keep (some (j, f)) ((k, e) ∷ m) =
      least keep (if keep e && total_lt e.priority f.priority then some (k, e) else some (j, f)) m

  module _ (frequency size : ℕ) where
    -- The priority of the newcomer.
    abbrev priority_now : Cache → Carrier
    priority_now c = add c.inflation (div (of_ℕ frequency) (of_ℕ size))

    dropped : Option Entry × Cache → Put Carrier
    dropped (none, c) = panicked
    dropped (some e, c) =
        let d : Cache = record c {
          inflation = F.max c.inflation e.priority;
          evictions = (c.evictions + 1) % usize_mod;
        } in
        going (priority_now d) d

    -- A round of either loop once it has looked for a victim; `refuses` compares the priorities.
    pub make_way :
        (Carrier → Carrier → Bool) → Option (String × Entry) → Carrier → Cache → Put Carrier
    unfolding dropped remove
    make_way refuses none priority c = returned c
    make_way refuses (some (k, v)) priority c =
        if refuses priority v.priority
        then returned (record c { admission_rejections = (c.admission_rejections + 1) % usize_mod })
        else dropped (remove k c)

    pub tenant_loop : ℕ → String → Carrier → Cache → Put Carrier
    unfolding make_way least
    tenant_loop zero tenant priority c = out_of_fuel
    tenant_loop (suc fuel) tenant priority c =
        elim (ltb c.default_tenant_max_bytes
          (saturating_add (bytes_of tenant c.tenant_bytes) size)) [
            | false ↦ going priority c
            | true ↦
                and_then (make_way le (least (owned_by tenant) none c.entries) priority c)
                  (tenant_loop fuel tenant)
          ]

    pub total_loop : ℕ → Carrier → Cache → Put Carrier
    unfolding make_way least
    total_loop zero priority c = out_of_fuel
    total_loop (suc fuel) priority c =
        elim (ltb c.maximum_bytes ((c.current_bytes + size) % usize_mod)) [
          | false ↦ going priority c
          | true ↦
              and_then (make_way lt (least any_entry none c.entries) priority c) (total_loop fuel)
        ]

  pub insert : String → String → List ℕ → Carrier → Cache → Cache
  insert tenant key payload priority c = record c {
    current_bytes = (c.current_bytes + length payload) % usize_mod;
    tenant_bytes =
        HashMap.insert string_discrete tenant
          ((bytes_of tenant c.tenant_bytes + length payload) % usize_mod) c.tenant_bytes;
    entries =
        HashMap.insert string_discrete key
          (record { payload = payload; priority = priority; owner_tenant = tenant }) c.entries;
  }

  pub put_fresh : (hash : ℕ → String → ℕ) → String → String → List ℕ → Cache → Put Carrier
  unfolding tenant_loop total_loop insert
  put_fresh hash tenant key payload c =
      let size = length payload in
      let frequency = max (estimate hash key c.sketch) 1 in
      let fuel = suc (length c.entries) in
      and_then (tenant_loop frequency size fuel tenant (priority_now frequency size c) c) (λ p d.
        and_then (total_loop frequency size fuel p d)
          (λ q b. returned (insert tenant key payload q b)))

  pub put : (hash : ℕ → String → ℕ) → String → String → List ℕ → Cache → Put Carrier
  unfolding put_fresh remove
  put hash tenant key payload c =
      if (if c.maximum_bytes == 0 then true else ltb c.maximum_bytes (length payload))
      then returned c
      else put_fresh hash tenant key payload (remove key c).1
