-- ===== src/Consignment/Find.antt =====
-- A consignment after the change of it or of another one (the writes of
-- cmd/consignment-service/storage/mongo/mongo.go, by id).
use shippy.Prelude.{
  String, some, ◌≡◌, ◌≢◌, refl, List, [], ◌∷◌, ◌==◌, arith, eq_iff, Bool-cases, inl, inr,
}
use shippy.Consignment.{Consignment, ConsignmentUpdate, find, set_one, updated}

pub find-set_one :
    (id : String) (u : ConsignmentUpdate) (cs : List Consignment) (c : Consignment)
    → find id cs ≡ some c
    → find id (set_one id u cs) ≡ some (updated u c)
unfolding find set_one
find-set_one id u [] c h = cc
find-set_one id u (d ∷ cs) c h = elim (Bool-cases (d.id == id)) [
  | inl same ↦ let h' = rw same at h in rw (same, same) (cc)
  | inr other ↦ let h' = rw other at h in rw (other, other) (find-set_one id u cs c h')
]

pub find-set_other :
    (id j : String) (u : ConsignmentUpdate) (cs : List Consignment)
    → id ≢ j
    → find j (set_one id u cs) ≡ find j cs
unfolding find set_one
find-set_other id j u [] h = refl
find-set_other id j u (d ∷ cs) h =
    ground (arith, eq_iff d.id id, eq_iff d.id j, find-set_other id j u cs h)
