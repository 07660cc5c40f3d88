-- ===== src/Extension/Client/Identity.antt =====
-- Who asks and how soon: what the client checks of it, and how the daemon reads it.
-- `encode_external_descriptors`.
use vector_chord.Base.{
  ℕ, ◌+◌, ◌%◌, ◌<◌, ◌≤◌, ◌≡◌, Bool, true, false, not, ◌||◌, Option, none, some, List, ◌++◌, length,
  ltb, ◌==◌, arith, refl, ap, subst,
}
use mathlib.Core.List.{append_assoc}
use vector_chord.Tilemaxsimd.Protocol.{Result, Bytes, le_bytes, Reader, any_control, chars, signed}
use vector_chord.Tilemaxsimd.Protocol.Readers.{IsBefore, advance, uint_step}
use vector_chord.Tilemaxsimd.Protocol.Texts.{IsText, text_step}
use vector_chord.Tilemaxsimd.Protocol.Frame.{schedule, tenant_of, default_tenant, priority_in_range}
use vector_chord.Extension.Client.{Outcome, invalid_contract, invalid_scheduling}
use vector_chord.Extension.Client.Request.{
  Scheduling, has_control, refuse_if, validate_request_identity,
}
use vector_chord.Extension.Client.Encoder.{i32_bits, clamp_timeout, version_of}
use vector_chord.Extension.Client.Written.{refuse_if-ok, scheduling_bytes, tenant_bytes}

-- A string of Rust is UTF-8.
abbrev pub IsUtf8 : Bytes → Type 0
IsUtf8 s = (characters : List ℕ) × (chars 0 0 0 0 s ≡ some characters)

abbrev pub IsUtf8Tenant : Option Scheduling → Type 0
IsUtf8Tenant none = Unit {0}
IsUtf8Tenant (some s) = IsUtf8 s.tenant

-- What the daemon is told of the scheduling.
abbrev pub tenant_name : Option Scheduling → Bytes
tenant_name none = default_tenant
tenant_name (some s) = s.tenant

abbrev pub priority_of : Option Scheduling → ℕ
priority_of none = 2147483648
priority_of (some s) = s.priority

abbrev pub timeout_of : Option Scheduling → ℕ → ℕ
timeout_of none timeout = 0
timeout_of (some s) timeout = clamp_timeout timeout

abbrev tenant_length : Option Scheduling → ℕ
tenant_length none = 0
tenant_length (some s) = length s.tenant

checked-IsText :
    (s : Bytes) (maximum : ℕ)
    → IsUtf8 s
    → (length s == 0 || ltb maximum (length s) || has_control s) ≡ false
    → IsText s × (0 < length s) × (length s ≤ maximum)
unfolding has_control
checked-IsText s maximum (cs, u) e =
    let (p, q, h) = bounds (length s) maximum (has_control s) e in
    (
      record {
        characters = cs;
        decoded = u;
        plain =
            subst
              (λ (o : Option (List ℕ)).
                (elim o [ none ↦ false | some cs ↦ any_control cs ]) ≡ false)
              u h;
      },
      p,
      q,
    )
  where
    bounds :
        (n m : ℕ) (b : Bool) → (n == 0 || ltb m n || b) ≡ false → (0 < n) × (n ≤ m) × (b ≡ false)
    bounds n m b e = (ground arith, ground arith, ground arith)

pub record IsIdentity (contract : Bytes) (s : Option Scheduling) : Type 0 where
  pub contract_text : IsText contract × (0 < length contract) × (length contract ≤ 512)
  pub tenant_text :
      (t : Scheduling)
      → s ≡ some t
      → IsText t.tenant
        × (0 < length t.tenant)
        × (length t.tenant ≤ 256)
        × (priority_in_range t.priority ≡ true)

last_check :
    (n m : ℕ) (b c : Bool)
    → (n == 0 || ltb m n || b || not c) ≡ false
    → ((n == 0 || ltb m n || b) ≡ false) × (c ≡ true)
last_check n m b c e = (ground arith, ground arith)

some-injective : {a b : Scheduling} → Option.some a ≡ some b → a ≡ b
some-injective e = cc

refused : (t : Bool) (x : _) → refuse_if t x ≡ Outcome.ok tt → t ≡ false
refused t x e = ground arith

pub validate-IsIdentity :
    (contract : Bytes) (s : Option Scheduling)
    → IsUtf8 contract
    → IsUtf8Tenant s
    → validate_request_identity contract s ≡ Outcome.ok tt
    → IsIdentity contract s
unfolding validate_request_identity
validate-IsIdentity contract none u v e =
    let (c, f) =
      refuse_if-ok (length contract == 0 || ltb 512 (length contract) || has_control contract)
        invalid_contract (Outcome.ok tt) tt e in
    record {
      contract_text = checked-IsText contract 512 u c;
      tenant_text = λ t q. absurd (ground arith);
    }
validate-IsIdentity contract (some s) u v e =
    let bad =
      length s.tenant == 0
      || ltb 256 (length s.tenant)
      || has_control s.tenant
      || not (priority_in_range s.priority) in
    let (c, f) =
      refuse_if-ok (length contract == 0 || ltb 512 (length contract) || has_control contract)
        invalid_contract (refuse_if bad invalid_scheduling) tt e in
    let (d, r) =
      last_check (length s.tenant) 256 (has_control s.tenant) (priority_in_range s.priority)
        (refused bad invalid_scheduling f) in
    let (x, y, z) = checked-IsText s.tenant 256 v d in
    let all : (t : Scheduling)
        → s ≡ t
        → IsText t.tenant
          × (0 < length t.tenant)
          × (length t.tenant ≤ 256)
          × (priority_in_range t.priority ≡ true) =
      λ t q.
        subst
          (λ (t : Scheduling).
            IsText t.tenant
            × (0 < length t.tenant)
            × (length t.tenant ≤ 256)
            × (priority_in_range t.priority ≡ true))
          q (x, y, z, r) in
    record {
      contract_text = checked-IsText contract 512 u c;
      tenant_text = λ t q. all t (some-injective q);
    }

i32_bits-back :
    (p : ℕ)
    → priority_in_range p ≡ true
    → (i32_bits p < 4294967296) × ((i32_bits p + 2147483648) % 4294967296 ≡ p)
i32_bits-back p e = let h : p < 4294967296 = ground arith in (omega arith, omega arith)

signed_step :
    (p : ℕ) (rest : Bytes) {r : Reader}
    → priority_in_range p ≡ true
    → IsBefore (le_bytes 4 (i32_bits p) ++ rest) r
    → (signed r ≡ Result.ok (p, advance 4 r)) × IsBefore rest (advance 4 r)
unfolding signed
signed_step p rest {r} e b =
    let (l, q) = i32_bits-back p e in
    let (e1, b1) = uint_step 4 (i32_bits p) rest l b in
    (rw e1 (ap (λ n. Result.ok (n, advance 4 r)) q), b1)

pub clamp_bounds : (t : ℕ) → (1 ≤ clamp_timeout t) × (clamp_timeout t ≤ 600000)
clamp_bounds t = (omega arith, omega arith)

pub schedule_step :
    (contract : Bytes) (s : Option Scheduling) (timeout : ℕ) (rest : Bytes) {r : Reader}
    → IsIdentity contract s
    → IsBefore (scheduling_bytes s timeout ++ rest) r
    → (r' : Reader) × IsBefore rest r'
      × (schedule (version_of s) r
          ≡ Result.ok ((priority_of s, timeout_of s timeout, tenant_length s), r'))
unfolding schedule
schedule_step contract none timeout rest {r} i b = (r, b, refl)
schedule_step contract (some s) timeout rest {r} i b =
    let (t, p, m, q) = i.tenant_text s refl in
    let b0 : IsBefore
        (le_bytes 4 (i32_bits s.priority)
          ++ (le_bytes 4 (clamp_timeout timeout) ++ (le_bytes 4 (length s.tenant) ++ rest)))
        r =
      subst (λ l. IsBefore l r) (simp append_assoc) b in
    let (e1, b1) = signed_step s.priority _ q b0 in
    let (e2, b2) = uint_step 4 (clamp_timeout timeout) _ (omega (arith, clamp_bounds timeout)) b1 in
    let (e3, b3) = uint_step 4 (length s.tenant) rest (omega arith) b2 in
    (_, b3, rw (e1, e2, e3) refl)

pub tenant_step :
    (contract : Bytes) (s : Option Scheduling) (rest : Bytes) {r : Reader}
    → IsIdentity contract s
    → IsBefore (tenant_bytes s ++ rest) r
    → (r' : Reader) × IsBefore rest r'
      × (tenant_of (version_of s) (tenant_length s) r ≡ Result.ok (tenant_name s, r'))
unfolding tenant_of
tenant_step contract none rest {r} i b = (r, b, refl)
tenant_step contract (some s) rest {r} i b =
    let (t, p, m, q) = i.tenant_text s refl in
    let (e1, b1) = text_step s.tenant 256 rest t p m b in (_, b1, e1)
