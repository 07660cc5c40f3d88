-- ===== src/Tilemaxsimd/HostCache/Insertion.antt =====
-- `put` of the host cache: its loops end, no `expect` fails, and the books and the limits are kept.
use Prim.Native.String.{String}
use vector_chord.Base.{
  ℕ, zero, suc, ◌+◌, ◌%◌, ◌≤◌, ◌<◌, ◌≡◌, ◌⊎◌, inl, inr, max, Bool, true, false, ◌&&◌, Option, none,
  some, List, [], ◌∷◌, length, ltb, ◌==◌, if◌then◌else◌, if_elim, arith, refl, ap,
}
use vector_chord.Base.Text.{string_discrete}
use vector_chord.Base.HashMap
use vector_chord.Base.HashMap.{HashMap}
use vector_chord.Base.Float.{F64}
use vector_chord.Tilemaxsimd.Allocator.{usize_mod}
use vector_chord.Tilemaxsimd.Sketch.{estimate}
use vector_chord.Tilemaxsimd.Cache.{bytes_of, saturating_add}
use vector_chord.Tilemaxsimd.HostCache.{
  Cache, Entry, Put, going, returned, and_then, remove, least, any_entry, owned_by, priority_now,
  make_way, dropped, tenant_loop, total_loop, insert, put_fresh, put,
}
use vector_chord.Tilemaxsimd.HostCache.Removal.{
  size_of, size_if_owner, entry, IsValid, Kept, Kept-refl, Kept-trans, same_tables-Kept, without,
  without-Kept, remove-found, remove-Kept,
}

module _ (F : F64) where
  abbrev Present : HashMap String (Entry F) → Option (String × Entry F) → Type 0
  Present m none = Unit {0}
  Present m (some (k, e)) = HashMap.get string_discrete k m ≡ some e

  least-Present :
      (keep : Entry F → Bool) (m n : HashMap String (Entry F)) (best : Option (String × Entry F))
      → Present n best
      → HashMap.IsDistinct string_discrete m
      → ((k : String) (e : Entry F)
          → HashMap.get string_discrete k m ≡ some e
          → HashMap.get string_discrete k n ≡ some e)
      → Present n (least F keep best m)
  unfolding least HashMap.get
  least-Present keep [] n best b d h = b
  least-Present keep ((k, e) ∷ m) n none b d h =
      least-Present keep m n (if keep e then some (k, e) else none)
        (if_elim (Present n) (keep e) (λ p. h k e (ground arith)) (λ p. tt)) d.1
        (λ i g p. h i g (ground (arith, d.0)))
  least-Present keep ((k, e) ∷ m) n (some (j, f)) b d h =
      least-Present keep m n
        (if keep e && F.total_lt e.priority f.priority then some (k, e) else some (j, f))
        (if_elim (Present n) (keep e && F.total_lt e.priority f.priority)
          (λ p. h k e (ground arith)) (λ p. b))
        d.1 (λ i g p. h i g (ground (arith, d.0)))

  -- What a loop, or a round of one, has done to the cache `c`.
  data Looped (P : Cache F → Type 0) (c : Cache F) (r : Put F.Carrier) : Type 0 where
    stopped : (d : Cache F) → Kept F c d → r ≡ returned d → Looped P c r
    done : (p : F.Carrier) (d : Cache F) → Kept F c d → P d → r ≡ going p d → Looped P c r

  Looped-bind :
      (P Q : Cache F → Type 0) (c : Cache F) (r : Put F.Carrier)
      (f : F.Carrier → Cache F → Put F.Carrier)
      → Looped Q c r
      → ((p : F.Carrier) (d : Cache F) → Kept F c d → Q d → Looped P d (f p d))
      → Looped P c (and_then r f)
  Looped-bind P Q c r f (stopped d k e) h = stopped d k (rw e refl)
  Looped-bind P Q c r f (done p d k q e) h = extend (h p d k q)
    where
      extend : Looped P d (f p d) → Looped P c (and_then r f)
      extend (stopped g l u) = stopped g (Kept-trans F c d g k l) (rw e u)
      extend (done s g l w u) = done s g (Kept-trans F c d g k l) w (rw e u)

  module _ (frequency size : ℕ) where
    make_way-Looped :
        (refuses : F.Carrier → F.Carrier → Bool) (c : Cache F) (o : Option (String × Entry F))
        (priority : F.Carrier)
        → IsValid F c
        → Present c.entries o
        → Looped
            (λ d. length c.entries ≡ suc (length d.entries))
            c
            (make_way F frequency size refuses o priority c)
    unfolding make_way dropped
    make_way-Looped refuses c none priority v h = stopped c (Kept-refl F c v) refl
    make_way-Looped refuses c (some (k, e)) priority v h =
        if_elim (Looped (λ d. length c.entries ≡ suc (length d.entries)) c)
          (refuses priority e.priority)
          (λ q. stopped _ (same_tables-Kept F c _ refl refl refl refl refl v) refl)
          (λ q.
            let kept = without-Kept F c k e v h in
            let d : Cache F = record (without F c k e v h) {
              inflation = F.max c.inflation e.priority;
              evictions = (c.evictions + 1) % usize_mod;
            } in
            done (priority_now F frequency size d) d
              (Kept-trans F c _ d kept (same_tables-Kept F _ d refl refl refl refl refl kept.valid))
              (HashMap.length-remove string_discrete k e c.entries h)
              (ap (dropped F frequency size) (remove-found F c k e v h)))

    tenant_loop-Looped :
        (fuel : ℕ) (tenant : String) (priority : F.Carrier) (c : Cache F)
        → IsValid F c
        → length c.entries < fuel
        → Looped
            (λ d. saturating_add (bytes_of tenant d.tenant_bytes) size ≤ d.default_tenant_max_bytes)
            c
            (tenant_loop F frequency size fuel tenant priority c)
    unfolding tenant_loop
    tenant_loop-Looped zero tenant priority c v h = absurd (omega arith)
    tenant_loop-Looped (suc fuel) tenant priority c v h =
        go (ltb c.default_tenant_max_bytes (saturating_add (bytes_of tenant c.tenant_bytes) size))
          refl (λ p d k q. tenant_loop-Looped fuel tenant p d (k.valid) (omega arith))
      where
        P : Cache F → Type 0
        P d = saturating_add (bytes_of tenant d.tenant_bytes) size ≤ d.default_tenant_max_bytes

        go :
            (b : Bool)
            → ltb c.default_tenant_max_bytes (saturating_add (bytes_of tenant c.tenant_bytes) size)
              ≡ b
            → ((p : F.Carrier) (d : Cache F)
                → Kept F c d
                → length c.entries ≡ suc (length d.entries)
                → Looped P d (tenant_loop F frequency size fuel tenant p d))
            → Looped P c (elim b [
              | false ↦ going priority c
              | true ↦
                  and_then
                    (make_way F frequency size F.le
                      (least F (owned_by F tenant) none c.entries)
                      priority
                      c)
                    (tenant_loop F frequency size fuel tenant)
            ])
        go false e rest = done priority c (Kept-refl F c v) (ground arith) refl
        go true e rest =
            Looped-bind P (λ d. length c.entries ≡ suc (length d.entries)) c _ _
              (make_way-Looped F.le c (least F (owned_by F tenant) none c.entries) priority v (
                least-Present (owned_by F tenant) c.entries c.entries none tt v.keys_once
                  (λ k f p. p)))
              rest

    total_loop-Looped :
        (fuel : ℕ) (priority : F.Carrier) (c : Cache F)
        → IsValid F c
        → length c.entries < fuel
        → Looped
            (λ d. (d.current_bytes + size) % usize_mod ≤ d.maximum_bytes)
            c
            (total_loop F frequency size fuel priority c)
    unfolding total_loop
    total_loop-Looped zero priority c v h = absurd (omega arith)
    total_loop-Looped (suc fuel) priority c v h =
        go (ltb c.maximum_bytes ((c.current_bytes + size) % usize_mod)) refl
          (λ p d k q. total_loop-Looped fuel p d (k.valid) (omega arith))
      where
        P : Cache F → Type 0
        P d = (d.current_bytes + size) % usize_mod ≤ d.maximum_bytes

        go :
            (b : Bool)
            → ltb c.maximum_bytes ((c.current_bytes + size) % usize_mod) ≡ b
            → ((p : F.Carrier) (d : Cache F)
                → Kept F c d
                → length c.entries ≡ suc (length d.entries)
                → Looped P d (total_loop F frequency size fuel p d))
            → Looped P c (elim b [
              | false ↦ going priority c
              | true ↦
                  and_then
                    (make_way F frequency size F.lt
                      (least F (any_entry F) none c.entries)
                      priority
                      c)
                    (total_loop F frequency size fuel)
            ])
        go false e rest = done priority c (Kept-refl F c v) (ground arith) refl
        go true e rest =
            Looped-bind P (λ d. length c.entries ≡ suc (length d.entries)) c _ _
              (make_way-Looped F.lt c (least F (any_entry F) none c.entries) priority v
                (least-Present (any_entry F) c.entries c.entries none tt v.keys_once (λ k f p. p)))
              rest

  owner-le-all :
      (t : String) (m : HashMap String (Entry F))
      → HashMap.sum (size_if_owner F t) m ≤ HashMap.sum (size_of F) m
  unfolding HashMap.sum
  owner-le-all t [] = omega arith
  owner-le-all t ((k, e) ∷ m) = ground (arith, owner-le-all t m)

  module _ (tenant key : String) (payload : List ℕ) (p : F.Carrier) (c : Cache F) (v : IsValid F c)
      (new : entry F key c ≡ none) (fits : length payload ≤ c.maximum_bytes)
      (share : saturating_add (bytes_of tenant c.tenant_bytes) (length payload)
        ≤ c.default_tenant_max_bytes)
      (room : (c.current_bytes + length payload) % usize_mod ≤ c.maximum_bytes) where
    exact : (c.current_bytes + length payload) % usize_mod ≡ c.current_bytes + length payload
    exact = omega (arith, v.small, v.room)

    used : bytes_of tenant c.tenant_bytes ≤ c.current_bytes
    used = omega (arith, v.books tenant, v.total, owner-le-all tenant c.entries)

    insert-IsValid : IsValid F (insert F tenant key payload p c)
    unfolding insert
    insert-IsValid = record {
      small = v.small;
      keys_once = HashMap.insert-IsDistinct string_discrete key _ c.entries v.keys_once;
      tenants_once =
          HashMap.insert-IsDistinct string_discrete tenant _ c.tenant_bytes v.tenants_once;
      total = omega (
        arith,
        exact,
        v.total,
        HashMap.sum-insert_new string_discrete (size_of F) key
            (record { payload = payload; priority = p; owner_tenant = tenant }) c.entries new,
      );
      books = λ t. ground (
        arith,
        HashMap.get-insert string_discrete t tenant
            ((bytes_of tenant c.tenant_bytes + length payload) % usize_mod) c.tenant_bytes,
        HashMap.sum-insert_new string_discrete (size_if_owner F t) key
            (record { payload = payload; priority = p; owner_tenant = tenant }) c.entries new,
        v.books t,
        used,
        v.small,
        v.room,
        fits,
      );
      room = room;
      shares = λ t. ground (
        arith,
        HashMap.get-insert string_discrete t tenant
            ((bytes_of tenant c.tenant_bytes + length payload) % usize_mod) c.tenant_bytes,
        v.shares t,
        used,
        v.small,
        v.room,
        fits,
        share,
      );
    }

  -- What `put` leaves under the key: nothing, or the payload.
  pub IsCurrent : String → List ℕ → Cache F → Type 0
  IsCurrent key payload d =
      (entry F key d ≡ none) ⊎ ((e : Entry F) × (entry F key d ≡ some e) × (e.payload ≡ payload))

  put_fresh-ends :
      (hash : ℕ → String → ℕ) (tenant key : String) (payload : List ℕ) (c : Cache F)
      → IsValid F c
      → entry F key c ≡ none
      → length payload ≤ c.maximum_bytes
      → (d : Cache F) × (put_fresh F hash tenant key payload c ≡ returned d)
        × IsValid F d
        × IsCurrent key payload d
  unfolding put_fresh IsCurrent insert
  put_fresh-ends hash tenant key payload c v new fits = shared (
      tenant_loop-Looped frequency size (suc (length c.entries)) tenant
        (priority_now F frequency size c) c v (omega arith))
    where
      size : ℕ
      size = length payload

      frequency : ℕ
      frequency = max (estimate hash key c.sketch) 1

      stored : F.Carrier → Entry F
      stored q = record { payload = payload; priority = q; owner_tenant = tenant }

      totalled :
          (p : F.Carrier) (d : Cache F)
          → Kept F c d
          → saturating_add (bytes_of tenant d.tenant_bytes) size ≤ d.default_tenant_max_bytes
          → (r : Put F.Carrier)
          → Looped (λ b. (b.current_bytes + size) % usize_mod ≤ b.maximum_bytes) d r
          → (b : Cache F) × (and_then r (λ q a. returned (insert F tenant key payload q a))
              ≡ returned b)
            × IsValid F b
            × IsCurrent key payload b
      totalled p d k share r (stopped b l e) =
          (b, rw e refl, l.valid, inl (l.absent key (k.absent key new)))
      totalled p d k share r (done q b l room e) = (
        insert F tenant key payload q b,
        rw e refl,
        insert-IsValid tenant key payload q b (l.valid) (l.absent key (k.absent key new))
            (omega (arith, fits, k.same_maximum, l.same_maximum))
            (ground (arith, share, l.usage tenant, l.same_default)) room,
        inr (
          stored q,
          ground (arith, HashMap.get-insert string_discrete key key (stored q) b.entries),
          refl,
        ),
      )

      shared :
          Looped
            (λ d. saturating_add (bytes_of tenant d.tenant_bytes) size ≤ d.default_tenant_max_bytes)
            c
            (tenant_loop F frequency size
              (suc (length c.entries))
              tenant
              (priority_now F frequency size c)
              c)
          → (d : Cache F) × (put_fresh F hash tenant key payload c ≡ returned d)
            × IsValid F d
            × IsCurrent key payload d
      shared (stopped d k e) = (d, rw e refl, k.valid, inl (k.absent key new))
      shared (done p d k share e) =
          let (b, f, w, s) = totalled p d k share _ (
            total_loop-Looped frequency size (suc (length c.entries)) p d (k.valid)
              (omega (arith, k.fewer))) in
          (b, rw e f, w, s)

  -- `put` on a valid cache returns: its loops end and no `expect` fails. The cache is then valid: its
  -- books are right, the total is within the maximum, and each tenant's bytes are within its share. A
  -- payload that could fit is then what the key holds, if the key is there at all.
  pub put-IsValid :
      (hash : ℕ → String → ℕ) (tenant key : String) (payload : List ℕ) (c : Cache F)
      → IsValid F c
      → (d : Cache F) × (put F hash tenant key payload c ≡ returned d)
        × IsValid F d
        × (0 < c.maximum_bytes → length payload ≤ c.maximum_bytes → IsCurrent key payload d)
  unfolding put
  put-IsValid hash tenant key payload c v =
      if_elim
        (λ r.
          (d : Cache F) × (r ≡ returned d)
          × IsValid F d
          × (0 < c.maximum_bytes → length payload ≤ c.maximum_bytes → IsCurrent key payload d))
        (if c.maximum_bytes == 0 then true else ltb c.maximum_bytes (length payload))
        (λ e. (c, refl, v, λ p q. absurd (ground arith)))
        (λ e.
          let (k, gone) = remove-Kept F key c v in
          let (d, r, w, s) =
            put_fresh-ends hash tenant key payload (remove F key c).1 (k.valid) gone
              (ground (arith, k.same_maximum)) in
          (d, r, w, λ p q. s))
