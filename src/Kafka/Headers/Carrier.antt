-- ===== src/Kafka/Headers/Carrier.antt =====
-- The trace context on its way through the headers of a message (pkg/kafka/propagator.go).
use shippy.Prelude.{
  String, Option, none, some, if◌then◌else◌, ◌==◌, eq_iff, arith, ◌≡◌, ◌≢◌, refl, ap, ◌∙◌, inl, inr,
  List, [], ◌∷◌, ⊤,
}
use shippy.Prelude.Collection.{Any, All}
use shippy.Kafka.Headers.{Header, get_header, set_header, get, set, headers_from_trace_context}

get_header-set_header :
    (key value k : String) (hs : List Header)
    → get_header k (set_header key value hs) ≡ (if key == k then value else get_header k hs)
unfolding get_header set_header
get_header-set_header key value k [] = refl
get_header-set_header key value k (h ∷ hs) =
    ground
      (arith, eq_iff h.key key, eq_iff h.key k, eq_iff key k, get_header-set_header key value k hs)

-- A carrier gives back what was set last under a key, "" where nothing was, and setting one key leaves
-- the others; with a nil pointer nothing is kept.
pub get-set :
    (key value k : String) (carrier : Option (List Header))
    → get k (set key value carrier)
      ≡ elim carrier [ none ↦ "" | some hs ↦ if key == k then value else get_header k hs ]
get-set key value k none = refl
get-set key value k (some hs) = get_header-set_header key value k hs

-- The keys of a map differ.
abbrev pub IsMap : List (String × String) → Type 0
IsMap [] = ⊤
IsMap (e ∷ es) = All (λ x. x.0 ≢ e.0) es × IsMap es

-- The trace context of an event comes out of the headers that it was written to, whatever the order
-- in which the entries of the map were written: the keys of a map differ.
pub trace_context_survives :
    (entries : List (String × String)) (key value : String)
    → IsMap entries
    → Any (λ e. e ≡ (key, value)) entries
    → get key (some (headers_from_trace_context entries)) ≡ value
unfolding get_header headers_from_trace_context
trace_context_survives [] key value distinct h = elim h [ ]
trace_context_survives ((k, v) ∷ rest) key value (others, distinct) (inl same) =
    let p : k ≡ key = ap (λ x. x.0) same in
    let q : v ≡ value = ap (λ x. x.1) same in ground (arith, eq_iff k key)
trace_context_survives ((k, v) ∷ rest) key value (others, distinct) (inr there) =
    let later = trace_context_survives rest key value distinct there in
    let other : key ≢ k = differs rest key value k others there in ground (arith, eq_iff k key)
  where
    differs :
        (es : List (String × String)) (key value k : String)
        → All (λ x. x.0 ≢ k) es
        → Any (λ e. e ≡ (key, value)) es
        → key ≢ k
    differs [] key value k all h = elim h [ ]
    differs (e ∷ es) key value k (p, ps) (inl same) = λ q. p (ap (λ x. x.0) same ∙ q)
    differs (e ∷ es) key value k (p, ps) (inr h) = differs es key value k ps h
