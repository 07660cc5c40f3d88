-- ===== src/Tilemaxsimd/Protocol/Frame/Tests.antt =====
-- A request of version 2 with one query token and no candidates.
use vector_chord.Base.{[], ◌∷◌, refl}
use vector_chord.Tilemaxsimd.Protocol.{
  Bytes, Request, take_bytes, le_value, unsigned, signed, chars, check_text, text, finish,
}
use vector_chord.Tilemaxsimd.Protocol.Frame.{
  tensor_bytes, validate_finite, candidates, schedule, tenant_of, body, parse, default_tenant,
}
use vector_chord.Tilemaxsimd.Protocol.Frame.Accepted.{IsAccepted, parse-IsAccepted}

abbrev frame : Bytes
frame =
    86 ∷ 67 ∷ 84 ∷ 77 ∷ 2 ∷ 0 ∷ 1 ∷ 0 ∷ 7 ∷ 0 ∷ 0 ∷ 0 ∷ 0 ∷ 0 ∷ 0 ∷ 0 ∷ 25 ∷ 0 ∷ 0 ∷ 0 ∷ 0 ∷ 0 ∷ 0
    ∷ 0 ∷ 1 ∷ 0 ∷ 0 ∷ 0 ∷ 1 ∷ 0 ∷ 0 ∷ 0 ∷ 0 ∷ 0 ∷ 0 ∷ 0 ∷ 1 ∷ 1 ∷ 0 ∷ 0 ∷ 1 ∷ 0 ∷ 0 ∷ 0 ∷ 109 ∷ 0
    ∷ 0 ∷ 128 ∷ 63 ∷ []

abbrev request : Request
request = record {
  protocol_version = 2;
  request_id = 7;
  tenant = default_tenant;
  priority = 2147483648;
  timeout_ms = 0;
  query_rows = 1;
  dimension = 1;
  dtype = 1;
  query = 0 ∷ 0 ∷ 128 ∷ 63 ∷ [];
  candidates = [];
}

parse-IsAccepted_example : IsAccepted request
unfolding parse body take_bytes le_value unsigned signed chars check_text text finish tensor_bytes
    validate_finite candidates schedule tenant_of
parse-IsAccepted_example = parse-IsAccepted frame request refl
