-- ===== src/Consignment/Storage/Tests.antt =====
-- The storage on collections in memory.
use Prim.Native.String.{◌++◌ as ◌+s◌, len}
use text.Mathlib.TextPositions.{len-append}
use shippy.Prelude.{
  ℕ, ℤ, pos, ◌+ℤ◌, String, Bool, Bool-cases, true, false, Option, none, some, if◌then◌else◌, ◌==◌,
  arith, ◌≡◌, refl, sym, ap, subst, ◌⊎◌, inl, inr, List, [], ◌∷◌, ◌++◌, Result, ok, err,
  no_documents, ok_eq, Exec, branch, Result-cases, ⊤, ◌∙◌, ◌<◌, ◌+◌,
}
use shippy.Prelude.Collection.{Any, Any-map}
use shippy.Outbox.{OutboxEvent, PendingEvent}
use shippy.Consignment.{
  Consignment, ConsignmentUpdate, Transaction, commit, abort, find, set_one, ℤ,
}
use shippy.Consignment.Driver.{
  Document, Content, Mongo, Matched, HasId, Partly, done, left, changed, change_one, change_where,
}
use shippy.Consignment.Storage.{
  is_free, claim, is_mine, decode_events, claimed_events, get_pending_events, ◌+ℤ◌,
}
use shippy.Consignment.Storage.Claims.{claimed_once, Claimable}

-- An id longer than those there.
fresh : List (Document String) → String
fresh [] = "x"
fresh (d ∷ ds) = "x" +s (d.id +s (d.claim_id +s fresh ds))

len-join : (a b c : String) → len ("x" +s (a +s (b +s c))) ≡ 1 + (len a + (len b + len c))
len-join a b c =
    len-append "x" (a +s (b +s c))
    ∙ ap (λ n. 1 + n) (len-append a (b +s c) ∙ ap (λ n. len a + n) (len-append b c))

len-fresh :
    (ds : List (Document String)) (id : String)
    → Any (λ d. (d.id ≡ id) ⊎ (d.claim_id ≡ id)) ds
    → len id < len (fresh ds)
unfolding fresh
len-fresh [] id h = elim h [ ]
len-fresh (d ∷ ds) id (inl (inl same)) =
    let l = len-join d.id d.claim_id (fresh ds) in rw (sym same, l) (omega arith)
len-fresh (d ∷ ds) id (inl (inr same)) =
    let l = len-join d.id d.claim_id (fresh ds) in rw (sym same, l) (omega arith)
len-fresh (d ∷ ds) id (inr h) =
    let rest = len-fresh ds id h in
    let l = len-join d.id d.claim_id (fresh ds) in rw l (omega arith)

filter : (Document String → Bool) → List (Document String) → List (Document String)
filter fits [] = []
filter fits (d ∷ ds) = if fits d then d ∷ filter fits ds else filter fits ds

filter_kept :
    (fits : Document String → Bool) (o : Document String) (ds : List (Document String))
    → fits o ≡ true
    → filter fits (o ∷ ds) ≡ o ∷ filter fits ds
unfolding filter
filter_kept fits o ds p = rw p refl

filter_lem :
    (fits : Document String → Bool) (ds : List (Document String)) (d : Document String)
    → Any (λ x. x ≡ d) (filter fits ds)
    → Any (λ x. x ≡ d) ds × (fits d ≡ true)
unfolding filter
filter_lem fits [] d h = elim h [ ]
filter_lem fits (o ∷ ds) d h = elim (Bool-cases (fits o)) [
  | inr p ↦ let (m, f) = filter_lem fits ds d (rw p at h) in (inr m, f)
  | inl p ↦ elim (subst (Any (λ x. x ≡ d)) (filter_kept fits o ds p) h) [
    | inl same ↦ (inl same, ap fits (sym same) ∙ p)
    | inr m ↦ let (there, f) = filter_lem fits ds d m in (inr there, f)
  ]
]

change_where-Partly :
    (fits : Document String → Bool) (change : Document String → Document String)
    (ds : List (Document String))
    → Partly fits change ds (change_where fits change ds)
unfolding change_where
change_where-Partly fits change [] = done
change_where-Partly fits change (d ∷ ds) = elim (Bool-cases (fits d)) [
  | inl p ↦ rw p (changed p (change_where-Partly fits change ds))
  | inr p ↦ rw p (left (change_where-Partly fits change ds))
]

abbrev Base : Type 0
Base = Content String

abbrev matches : Option Consignment → ℕ
matches none = 0
matches (some c) = 1

abbrev found : Option Consignment → Result Consignment
found none = err no_documents
found (some c) = ok c

abbrev matched_content : String → ConsignmentUpdate → Base → Option Consignment → Base
matched_content id u v none = v
matched_content id u v (some c) = record v { consignments = set_one id u v.consignments }

abbrev count : String → List (Document String) → ℕ
count id [] = 0
count id (d ∷ ds) = if d.id == id then 1 else count id ds

found_lem : (o : Option Consignment) (c : Consignment) → found o ≡ ok c → o ≡ some c
found_lem none c h = cc
found_lem (some d) c h = let e = ok_eq h in cc

abbrev with_transaction : Exec Base ⊤ → Exec Base ⊤
with_transaction fn s = branch (fn s).0 (λ e t. (err e, s)) (λ a t. (ok tt, t)) (fn s).1

transaction_lem :
    (fn : Exec Base ⊤) (s : Base)
    → Transaction (λ t. t) fn s (with_transaction fn s).0 (with_transaction fn s).1
transaction_lem fn s = elim (Result-cases (fn s).0) [
  | inl (a, p) ↦ rw p (commit (λ i. (p i, (fn s).1)) refl)
  | inr (e, p) ↦ rw p (abort refl)
]

not_fresh :
    (ds : List (Document String)) → ¬ Any (λ d. (d.id ≡ fresh ds) ⊎ (d.claim_id ≡ fresh ds)) ds
not_fresh ds h = let l = len-fresh ds (fresh ds) h in omega arith

matched_lem :
    (id : String) (u : ConsignmentUpdate) (v : Base) (o : Option Consignment)
    → find id v.consignments ≡ o
    → Matched id u v (matched_content id u v o) (ok (matches o))
matched_lem id u v none h = refl
matched_lem id u v (some c) h = ((c, h), refl)

abbrev db : Mongo String
db = record {
  State = Base;
  content = λ s. s;
  insert_consignment = λ c s. (ok tt, record s { consignments = s.consignments ++ c ∷ [] });
  update_consignment =
      λ id u s. let o = find id s.consignments in (ok (matches o), matched_content id u s o);
  find_consignment = λ id s. (found (find id s.consignments), s);
  find_consignments = λ s. (ok s.consignments, s);
  insert_document = λ d s. (ok tt, record s { documents = s.documents ++ d ∷ [] });
  update_document = λ id change s.
      (ok (count id s.documents), record s { documents = change_one id change s.documents });
  update_documents =
      λ fits change s. (ok tt, record s { documents = change_where fits change s.documents });
  find_documents = λ fits s. (ok (filter fits s.documents), s);
  start_session = λ s. (ok tt, s);
  session_transaction = with_transaction;
  uuid = λ s. fresh s.documents;
  insert_consignment_lem = λ c s. refl;
  update_consignment_lem = λ id u s. matched_lem id u s (find id s.consignments) refl;
  find_consignments_lem = λ s cs h c m. subst (Any (λ x. x ≡ c)) (ok_eq h) m;
  no_consignments_lem = λ s e h q. cc;
  find_consignment_lem = λ id s. (refl, λ c h. found_lem (find id s.consignments) c h);
  insert_document_lem = λ d s. refl;
  duplicate_key_lem = λ d s e h. cc;
  update_document_lem = λ id change s. refl;
  update_documents-consignments = λ fits change s. refl;
  update_documents_lem = λ fits change s h. refl;
  update_documents-Partly = λ fits change s. change_where-Partly fits change s.documents;
  find_documents_lem = λ fits s. (
    refl,
    λ ds d h m. filter_lem fits s.documents d (subst (Any (λ x. x ≡ d)) (sym (ok_eq h)) m),
  );
  start_session_lem = λ s. refl;
  session_transaction_lem = transaction_lem;
  uuid_lem = λ s h. not_fresh s.documents (
      Any-map (HasId (fresh s.documents))
        (λ d. (d.id ≡ fresh s.documents) ⊎ (d.claim_id ≡ fresh s.documents)) (λ d p. inl p)
        s.documents h);
  uuid-claim = λ s h. not_fresh s.documents (
      Any-map (λ d. d.claim_id ≡ fresh s.documents)
        (λ d. (d.id ≡ fresh s.documents) ⊎ (d.claim_id ≡ fresh s.documents)) (λ d p. inr p)
        s.documents h);
}

abbrev event : String → OutboxEvent String
event key = record { topic = "t"; key = key; payload = key }

abbrev document : String → Option ℤ → Document String
document id until = record {
  id = id;
  event = event id;
  created_at = pos 0;
  published_at = none;
  processing_until = until;
  claim_id = "";
}

-- One free event and one that another publisher holds.
abbrev start : Base
start = record {
  consignments = [];
  documents = document "e1" none ∷ document "e2" (some (pos 100)) ∷ [];
}

abbrev parse : String → Result String
parse id = ok id

abbrev pending : String → PendingEvent String
pending id = record { id = id; event = event id }

-- The first publisher gets the event that is free, the second nothing until the leases end.
polls :
    let r = get_pending_events db parse (pos 50) (pos 20) start in
    (r.0 ≡ ok (pending "e1" ∷ []))
    × ((get_pending_events db parse (pos 60) (pos 20) r.1).0 ≡ ok [])
    × ((get_pending_events db parse (pos 71) (pos 20) r.1).0 ≡ ok (pending "e1" ∷ []))
unfolding get_pending_events claimed_events decode_events is_free claim is_mine fresh filter
    change_where ◌+ℤ◌
polls = (refl, refl, refl)

claimed_once_example :
    ((e : PendingEvent String)
      → Any (λ x. x ≡ e) (pending "e1" ∷ [])
      → (d : Document String) × Any (λ x. x ≡ d) start.documents × Claimable parse (pos 50) e d)
    × ((e : PendingEvent String)
        → Any (λ x. x ≡ e) []
        → (d : Document String) × Any (λ x. x ≡ d) start.documents
          × (is_free (pos 50) d ≡ false)
          × (parse d.id ≡ ok e.id)
          × (d.event ≡ e.event))
unfolding ◌+ℤ◌
claimed_once_example =
    claimed_once db parse (pos 50) (pos 20) (pos 60) (pos 20) start (pending "e1" ∷ []) [] polls.0
      polls.1 refl
