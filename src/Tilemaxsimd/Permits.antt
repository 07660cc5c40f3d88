-- ===== src/Tilemaxsimd/Permits.antt =====
-- The permits of services/tilemaxsimd/src/main.rs: how many requests, of all tenants and of one, and how
-- many bytes of frames may be in the daemon at a time. The mutex makes each operation on requests one
-- step; the operations on bytes are two atomic steps each. An interleaving of threads is a sequence of
-- such steps.
pub mod Limits
pub mod Bytes
mod Tests
use Prim.Native.String.{String}
use vector_chord.Base.{
  ℕ, ◌+◌, ◌-◌, ◌%◌, Bool, true, false, ◌&&◌, Option, none, some, List, [], ◌∷◌, length, leb, ltb,
  ◌==◌, if◌then◌else◌,
}
use vector_chord.Base.Text.{string_discrete}
use vector_chord.Base.HashMap
use vector_chord.Base.HashMap.{HashMap}
use vector_chord.Tilemaxsimd.Allocator.{usize_mod}

pub data AdmissionRejection : Type 0 where
  global_limit tenant_limit : AdmissionRejection

-- The state behind the mutex, the limits, and the two gauges of the metrics.
pub record PendingAdmission : Type 0 where
  pub total : ℕ
  pub tenants : HashMap String ℕ
  pub max_total : ℕ
  pub max_tenant : ℕ
  pub pending_requests : ℕ
  pub pending_tenants : ℕ

pub new : ℕ → ℕ → PendingAdmission
new max_total max_tenant = record {
  total = 0;
  tenants = [];
  max_total = max_total;
  max_tenant = max_tenant;
  pending_requests = 0;
  pending_tenants = 0;
}

abbrev or_zero : Option ℕ → ℕ
or_zero none = 0
or_zero (some n) = n

abbrev pub count_of : String → HashMap String ℕ → ℕ
count_of tenant m = or_zero (HashMap.get string_discrete tenant m)

-- `metrics...store`
abbrev pub store_gauges : PendingAdmission → PendingAdmission
store_gauges a = record a { pending_requests = a.total; pending_tenants = length a.tenants }

-- The rejection, or none where a permit of the tenant is handed out.
pub try_acquire : String → PendingAdmission → Option AdmissionRejection × PendingAdmission
try_acquire tenant a =
    if leb a.max_total a.total
    then (some global_limit, a)
    else if leb a.max_tenant (count_of tenant a.tenants)
    then (some tenant_limit, a)
    else (
      none,
      store_gauges (record a {
        total = (a.total + 1) % usize_mod;
        tenants =
            HashMap.insert string_discrete tenant ((count_of tenant a.tenants + 1) % usize_mod)
              a.tenants;
      }),
    )

pub less_one : String → HashMap String ℕ → HashMap String ℕ
less_one tenant m = elim (HashMap.get string_discrete tenant m) [
  | none ↦ m
  | some count ↦
      if count - 1 == 0
      then HashMap.remove string_discrete tenant m
      else HashMap.insert string_discrete tenant (count - 1) m
]

-- A permit of the tenant is dropped.
pub drop_permit : String → PendingAdmission → PendingAdmission
unfolding less_one
drop_permit tenant a =
    store_gauges (record a { total = a.total - 1; tenants = less_one tenant a.tenants })

-- `ByteAdmission`, with the counts of the metrics.
pub record ByteAdmission : Type 0 where
  pub used : ℕ
  pub maximum : ℕ
  pub rejected_frame_bytes : ℕ
  pub inflight_request_bytes : ℕ

-- The atomic steps of `ByteAdmission`, which other threads may come between. First the update of
-- `used`: whether the bytes are granted.
pub reserve : ℕ → ByteAdmission → Bool × ByteAdmission
reserve bytes a =
    if ltb (a.used + bytes) usize_mod && leb (a.used + bytes) a.maximum
    then (true, record a { used = a.used + bytes })
    else (false, a)

-- The gauges, after a grant and after a refusal. `fetch_add` wraps around.
pub count_inflight : ℕ → ByteAdmission → ByteAdmission
count_inflight bytes a = record a {
  inflight_request_bytes = (a.inflight_request_bytes + bytes) % usize_mod;
}

pub count_rejected : ByteAdmission → ByteAdmission
count_rejected a = record a { rejected_frame_bytes = (a.rejected_frame_bytes + 1) % usize_mod }

-- The two steps of a drop. `fetch_sub` wraps around.
pub give_back : ℕ → ByteAdmission → ByteAdmission
give_back bytes a = record a { used = (a.used + (usize_mod - bytes % usize_mod)) % usize_mod }

pub uncount_inflight : ℕ → ByteAdmission → ByteAdmission
uncount_inflight bytes a = record a {
  inflight_request_bytes = (a.inflight_request_bytes + (usize_mod - bytes % usize_mod)) % usize_mod;
}

pub new_bytes : ℕ → ByteAdmission
new_bytes maximum = record {
  used = 0;
  maximum = maximum;
  rejected_frame_bytes = 0;
  inflight_request_bytes = 0;
}
