-- ===== src/Tilemaxsimd/Cache/Admit.antt =====
-- `admit_for_tenant` on a valid cache: the loops end, nothing panics, and what is in use stays.
use Prim.Native.String.{String}
use vector_chord.Base.{
  ℕ, zero, suc, ◌+◌, ◌%◌, ◌≤◌, ◌<◌, ◌≡◌, ◌≢◌, ◌⊎◌, inl, inr, Bool, true, false, not, Option, none,
  some, [], ◌∷◌, arith, refl, length, ap, ◌∙◌, sym, subst, if◌then◌else◌, if_elim, ltb, ◌&&◌, ◌||◌,
}
use vector_chord.Base.Text.{string_discrete}
use vector_chord.Base.Float.{F64}
use vector_chord.Base.HashMap
use vector_chord.Base.HashMap.{HashMap}
use vector_chord.Tilemaxsimd.Allocator.{largest_free, usize_mod}
use vector_chord.Tilemaxsimd.Cache.{
  and_then, Cache, Entry, Progress, going, answered, Admission, rejected, deferred,
  candidate_priority, can_evict, owned_by, least, victim, tenant_victim, remove_entry, evict,
  make_way, tenant_loop, arena_loop, reject, bytes_of, saturating_add,
}
use vector_chord.Tilemaxsimd.Cache.Invariant.{IsValid, entry, same_tables-IsValid}
use vector_chord.Tilemaxsimd.Cache.Evict.{Removed, remove_entry-Removed}

module _ (F : F64) where
  -- In use or pinned.
  abbrev pub IsHeld : Entry F → Type 0
  IsHeld e = (e.references ≢ 0) ⊎ (e.pinned ≡ true)

  -- A cache after some evictions: valid, with every held entry untouched and no new one.
  pub record Kept (c d : Cache F) : Type 0 where
    pub valid : IsValid d
    pub held : (k : String) (e : Entry F) → entry k c ≡ some e → IsHeld e → entry k d ≡ some e
    pub absent : (k : String) → entry k c ≡ none → entry k d ≡ none
    pub fewer : length d.entries ≤ length c.entries
    pub same_unit : d.allocator.block_bytes ≡ c.allocator.block_bytes
    pub same_reservations : d.tenant_reservations ≡ c.tenant_reservations
    pub same_default : d.default_tenant_max_bytes ≡ c.default_tenant_max_bytes
    pub same_pinned_max : d.pinned_max_bytes ≡ c.pinned_max_bytes
    pub usage : (t : String) → bytes_of t d.tenant_allocated ≤ bytes_of t c.tenant_allocated
    pub pinned_usage : d.pinned_bytes ≤ c.pinned_bytes

  pub Kept-refl : (c : Cache F) → IsValid c → Kept c c
  Kept-refl c v = record {
    valid = v;
    held = λ k e p h. p;
    absent = λ k p. p;
    fewer = omega arith;
    same_unit = refl;
    same_reservations = refl;
    same_default = refl;
    same_pinned_max = refl;
    usage = λ t. omega arith;
    pinned_usage = omega arith;
  }

  pub Kept-trans : (c d g : Cache F) → Kept c d → Kept d g → Kept c g
  Kept-trans c d g p q = record {
    valid = q.valid;
    held = λ k e h i. q.held k e (p.held k e h i) i;
    absent = λ k h. q.absent k (p.absent k h);
    fewer = omega (arith, p.fewer, q.fewer);
    same_unit = q.same_unit ∙ p.same_unit;
    same_reservations = q.same_reservations ∙ p.same_reservations;
    same_default = q.same_default ∙ p.same_default;
    same_pinned_max = q.same_pinned_max ∙ p.same_pinned_max;
    usage = λ t. omega (arith, p.usage t, q.usage t);
    pinned_usage = omega (arith, p.pinned_usage, q.pinned_usage);
  }

  -- The victim is an entry that passes the filter.
  abbrev Chosen : (Entry F → Bool) → HashMap String (Entry F) → Option (String × Entry F) → Type 0
  Chosen keep m none = Unit {0}
  Chosen keep m (some (k, e)) = (HashMap.get string_discrete k m ≡ some e) × (keep e ≡ true)

  further :
      (j k : String) (e f : Entry F) (m : HashMap String (Entry F))
      → HashMap.get string_discrete k m ≡ none
      → HashMap.get string_discrete j m ≡ some f
      → HashMap.get string_discrete j ((k, e) ∷ m) ≡ some f
  unfolding HashMap.get
  further j k e f m d h = ground arith

  first :
      (k : String) (e : Entry F) (m : HashMap String (Entry F))
      → HashMap.get string_discrete k ((k, e) ∷ m) ≡ some e
  unfolding HashMap.get
  first k e m = ground arith

  least-Chosen :
      (keep : Entry F → Bool) (m n : HashMap String (Entry F)) (best : Option (String × Entry F))
      → Chosen keep n best
      → HashMap.IsDistinct string_discrete m
      → ((k : String) (e : Entry F)
          → HashMap.get string_discrete k m ≡ some e
          → HashMap.get string_discrete k n ≡ some e)
      → Chosen keep n (least F keep best m)
  unfolding least
  least-Chosen keep [] n best b d h = b
  least-Chosen keep ((k, e) ∷ m) n none b d h =
      least-Chosen keep m n (if keep e then some (k, e) else none)
        (if_elim (Chosen keep n) (keep e) (λ p. (h k e (first k e m), p)) (λ p. tt)) d.1
        (λ j f p. h j f (further j k e f m d.0 p))
  least-Chosen keep ((k, e) ∷ m) n (some (j, f)) b d h =
      least-Chosen keep m n
        (if keep e && F.total_lt e.priority f.priority then some (k, e) else some (j, f))
        (if_elim (Chosen keep n) (keep e && F.total_lt e.priority f.priority)
          (λ p. (h k e (first k e m), and_left (keep e) _ p)) (λ p. b))
        d.1 (λ i g p. h i g (further i k e g m d.0 p))
    where
      and_left : (a b : Bool) → (a && b) ≡ true → a ≡ true
      and_left a b p = ground arith

  victim-Chosen : (c : Cache F) → IsValid c → Chosen (can_evict F c) c.entries (victim F c)
  unfolding victim
  victim-Chosen c v =
      least-Chosen (can_evict F c) c.entries c.entries none tt v.keys_once (λ k e h. h)

  tenant_victim-Chosen :
      (t : String) (c : Cache F) → IsValid c → Chosen (owned_by F t) c.entries (tenant_victim F t c)
  unfolding tenant_victim
  tenant_victim-Chosen t c v =
      least-Chosen (owned_by F t) c.entries c.entries none tt v.keys_once (λ k e h. h)

  can_evict-not-IsHeld : (c : Cache F) (e : Entry F) → can_evict F c e ≡ true → ¬ IsHeld e
  unfolding can_evict
  can_evict-not-IsHeld c e p (inl h) = ground arith
  can_evict-not-IsHeld c e p (inr h) = ground arith

  owned_by-not-IsHeld : (t : String) (e : Entry F) → owned_by F t e ≡ true → ¬ IsHeld e
  unfolding owned_by
  owned_by-not-IsHeld t e p (inl h) = ground arith
  owned_by-not-IsHeld t e p (inr h) = ground arith

  -- A removal of an entry that is not held keeps the rest.
  module _ (c : Cache F) (key : String) (e : Entry F) (here : entry key c ≡ some e)
      (v : IsValid c) where
    Removed-Kept :
        ¬ IsHeld e
        → (d : Cache F) → (r : Removed F c key e (remove_entry F key c)) → IsValid d
        → d.entries ≡ r.after.entries
        → d.allocator ≡ r.after.allocator
        → d.tenant_reservations ≡ r.after.tenant_reservations
        → d.default_tenant_max_bytes ≡ r.after.default_tenant_max_bytes
        → d.pinned_max_bytes ≡ r.after.pinned_max_bytes
        → d.tenant_allocated ≡ r.after.tenant_allocated
        → d.pinned_bytes ≡ r.after.pinned_bytes
        → Kept c d
    Removed-Kept free d r w p q s t u x y =
        let same = p ∙ r.entries_after in
        record {
          valid = w;
          held = λ k f h i. rw same (
              HashMap.get-remove_ne string_discrete k key c.entries
                (λ j. free (subst IsHeld (same_entry k f h j) i))
              ∙ h);
          absent = λ k h.
              rw same
                (HashMap.get-remove_ne string_discrete k key c.entries (λ j. ground arith) ∙ h);
          fewer =
              rw same (omega (arith, HashMap.length-remove string_discrete key e c.entries here));
          same_unit = ap (λ a. a.block_bytes) q ∙ r.same_unit;
          same_reservations = s ∙ r.same_reservations;
          same_default = t ∙ r.same_default;
          same_pinned_max = u ∙ r.same_pinned_max;
          usage = λ t. rw x (r.usage t);
          pinned_usage = rw y (r.pinned_usage);
        }
      where
        same_entry : (k : String) (f : Entry F) → entry k c ≡ some f → key ≡ k → f ≡ e
        same_entry k f h j = ground arith

    -- The eviction of an entry that is not held succeeds, and leaves one entry less.
    evict-Kept :
        ¬ IsHeld e
        → (d : Cache F) × (evict F key c ≡ going d)
          × Kept c d
          × (length c.entries ≡ suc (length d.entries))
    unfolding evict
    evict-Kept free =
        let r = remove_entry-Removed F c key e v here in
        let d : Cache F = record (r.after) {
          inflation = F.max r.after.inflation e.priority;
          evictions = (r.after.evictions + 1) % usize_mod;
        } in
        (
          d,
          ground (arith, r.result),
          Removed-Kept free d r (same_tables-IsValid r.after d refl refl refl refl r.valid) refl
              refl refl refl refl refl refl,
          HashMap.length-remove string_discrete key e c.entries here
              ∙ ap (λ m. suc (length m)) (sym r.entries_after),
        )

  abbrev pub IsRefusal : Admission → Type 0
  IsRefusal a = (a ≡ rejected) ⊎ (a ≡ deferred)

  -- What a loop, or a round of one, has done to the cache `c`.
  pub data Looped (P : Cache F → Type 0) (c : Cache F) (r : Progress F.Carrier) : Type 0 where
    stopped :
        (a : Admission) (d : Cache F) → IsRefusal a → Kept c d → r ≡ answered a d → Looped P c r
    done : (d : Cache F) → Kept c d → P d → r ≡ going d → Looped P c r

  -- What follows a step that has gone on.
  Looped-bind :
      (P Q : Cache F → Type 0) (c : Cache F) (r : Progress F.Carrier)
      (f : Cache F → Progress F.Carrier)
      → Looped Q c r
      → ((d : Cache F) → Kept c d → Q d → Looped P d (f d))
      → Looped P c (and_then r f)
  Looped-bind P Q c r f (stopped a d i k e) h = stopped a d i k (rw e refl)
  Looped-bind P Q c r f (done d k q e) h = extend (h d k q)
    where
      extend : Looped P d (f d) → Looped P c (and_then r f)
      extend (stopped a g i l u) = stopped a g i (Kept-trans c d g k l) (rw e u)
      extend (done g l w u) = done g (Kept-trans c d g k l) w (rw e u)

  Kept-rejected :
      (c : Cache F)
      → IsValid c
      → Kept c (record c { admission_rejections = (c.admission_rejections + 1) % usize_mod })
  Kept-rejected c v = record {
    valid = same_tables-IsValid c _ refl refl refl refl v;
    held = λ k e p h. p;
    absent = λ k p. p;
    fewer = omega arith;
    same_unit = refl;
    same_reservations = refl;
    same_default = refl;
    same_pinned_max = refl;
    usage = λ t. omega arith;
    pinned_usage = omega arith;
  }

  module _ (hash : ℕ → String → ℕ) (key : String) (bytes : ℕ) (force : Bool) where
    make_way-Looped :
        (firm : Bool) (c : Cache F) (o : Option (String × Entry F)) (keep : Entry F → Bool)
        → IsValid c
        → Chosen keep c.entries o
        → ((e : Entry F) → keep e ≡ true → ¬ IsHeld e)
        → Looped
            (λ d. length c.entries ≡ suc (length d.entries))
            c
            (make_way F hash key bytes force firm o c)
    unfolding make_way reject
    make_way-Looped firm c none keep v p h = stopped deferred c (inr refl) (Kept-refl c v) refl
    make_way-Looped firm c (some (k, e)) keep v p h =
        let d : Cache F = record c {
          admission_rejections = (c.admission_rejections + 1) % usize_mod;
        } in
        if_elim (Looped (λ d. length c.entries ≡ suc (length d.entries)) c)
          (not firm && F.le (candidate_priority F key bytes hash c) e.priority)
          (λ q. stopped rejected d (inl refl) (Kept-rejected c v) refl)
          (λ q.
            let (d, result, kept, fewer) = evict-Kept c k e p.0 v (h e p.1) in
            done d kept fewer result)

    -- The tenant's loop ends within as many rounds as there are entries, and below the limit.
    pub tenant_loop-Looped :
        (fuel : ℕ) (tenant : String) (limit : ℕ) (c : Cache F)
        → IsValid c
        → length c.entries < fuel
        → Looped
            (λ d. saturating_add (bytes_of tenant d.tenant_allocated) bytes ≤ limit)
            c
            (tenant_loop F hash key bytes force fuel tenant limit c)
    unfolding tenant_loop
    tenant_loop-Looped zero tenant limit c v h = absurd (omega arith)
    tenant_loop-Looped (suc fuel) tenant limit c v h =
        go (ltb limit (saturating_add (bytes_of tenant c.tenant_allocated) bytes)) refl
          (λ d k q. tenant_loop-Looped fuel tenant limit d (k.valid) (omega arith))
      where
        P : Cache F → Type 0
        P d = saturating_add (bytes_of tenant d.tenant_allocated) bytes ≤ limit

        go :
            (b : Bool)
            → ltb limit (saturating_add (bytes_of tenant c.tenant_allocated) bytes) ≡ b
            → ((d : Cache F)
                → Kept c d
                → length c.entries ≡ suc (length d.entries)
                → Looped P d (tenant_loop F hash key bytes force fuel tenant limit d))
            → Looped P c (elim b [
              | false ↦ going c
              | true ↦
                  and_then
                    (make_way F hash key bytes force force (tenant_victim F tenant c) c)
                    (tenant_loop F hash key bytes force fuel tenant limit)
            ])
        go false e rest = done c (Kept-refl c v) (ground arith) refl
        go true e rest =
            Looped-bind P (λ d. length c.entries ≡ suc (length d.entries)) c _ _
              (make_way-Looped force c (tenant_victim F tenant c) (owned_by F tenant) v
                (tenant_victim-Chosen tenant c v) (owned_by-not-IsHeld tenant))
              rest

    -- The arena's loop ends within as many rounds as there are entries, with a run that is large
    -- enough.
    pub arena_loop-Looped :
        (fuel : ℕ) (pinned : Bool) (c : Cache F)
        → IsValid c
        → length c.entries < fuel
        → Looped
            (λ d. bytes ≤ largest_free d.allocator)
            c
            (arena_loop F hash key bytes force fuel pinned c)
    unfolding arena_loop
    arena_loop-Looped zero pinned c v h = absurd (omega arith)
    arena_loop-Looped (suc fuel) pinned c v h =
        go (ltb (largest_free c.allocator) bytes) refl
          (λ d k q. arena_loop-Looped fuel pinned d (k.valid) (omega arith))
      where
        P : Cache F → Type 0
        P d = bytes ≤ largest_free d.allocator

        go :
            (b : Bool)
            → ltb (largest_free c.allocator) bytes ≡ b
            → ((d : Cache F)
                → Kept c d
                → length c.entries ≡ suc (length d.entries)
                → Looped P d (arena_loop F hash key bytes force fuel pinned d))
            → Looped P c (elim b [
              | false ↦ going c
              | true ↦
                  and_then
                    (make_way F hash key bytes force (force || pinned) (victim F c) c)
                    (arena_loop F hash key bytes force fuel pinned)
            ])
        go false e rest = done c (Kept-refl c v) (ground arith) refl
        go true e rest =
            Looped-bind P (λ d. length c.entries ≡ suc (length d.entries)) c _ _
              (make_way-Looped (force || pinned) c (victim F c) (can_evict F c) v
                (victim-Chosen c v) (can_evict-not-IsHeld c))
              rest
