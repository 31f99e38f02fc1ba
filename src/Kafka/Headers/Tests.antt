-- ===== src/Kafka/Headers/Tests.antt =====
-- The carrier at concrete headers.
use shippy.Prelude.{String, List, [], ◌∷◌, some, ◌≡◌, refl}
use shippy.Kafka.Headers.{get, set, get_header, set_header, headers_from_trace_context}

abbrev entries : List (String × String)
entries = ("traceparent", "00-1") ∷ ("tracestate", "a=b") ∷ []

-- A second value under a key takes the place of the first.
set_twice :
    get "traceparent" (set "traceparent" "00-2" (some (headers_from_trace_context entries)))
    ≡ "00-2"
unfolding get_header set_header headers_from_trace_context
set_twice = refl

kept : get "tracestate" (some (headers_from_trace_context entries)) ≡ "a=b"
unfolding get_header headers_from_trace_context
kept = refl
