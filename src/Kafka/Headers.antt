-- ===== src/Kafka/Headers.antt =====
-- The headers of a message as a carrier of the trace context (pkg/kafka/propagator.go, and
-- HeadersFromTraceContext of pkg/kafka/producer.go).
pub mod Carrier
mod Tests
use shippy.Prelude.{
  String, Bool, true, false, Option, none, some, if◌then◌else◌, ◌==◌, List, [], ◌∷◌, map,
}

-- The value is the text of its bytes.
pub record Header : Type 0 where
  pub key : String
  pub value : String

unfoldable pub get_header : String → List Header → String
get_header key [] = ""
get_header key (h ∷ hs) = if h.key == key then h.value else get_header key hs

unfoldable pub set_header : String → String → List Header → List Header
set_header key value [] = record { key = key; value = value } ∷ []
set_header key value (h ∷ hs) =
    if h.key == key then record { key = key; value = value } ∷ hs else h ∷ set_header key value hs

-- The methods of `HeaderCarrier`; a nil pointer is `none`.
abbrev pub get : String → Option (List Header) → String
get key none = ""
get key (some hs) = get_header key hs

abbrev pub set : String → String → Option (List Header) → Option (List Header)
set key value none = none
set key value (some hs) = some (set_header key value hs)

abbrev pub keys : Option (List Header) → List String
keys none = []
keys (some hs) = map (λ h. h.key) hs

-- The map as its entries, in the order in which the loop meets them.
unfoldable pub headers_from_trace_context : List (String × String) → List Header
headers_from_trace_context [] = []
headers_from_trace_context ((key, value) ∷ rest) =
    record { key = key; value = value } ∷ headers_from_trace_context rest
