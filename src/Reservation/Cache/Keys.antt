-- ===== src/Reservation/Cache/Keys.antt =====
-- The two key spaces of the cache (cmd/reservation-service/storage/redis/redis.go).
use Prim.Native.String.{◌++◌}
use text.Mathlib.TextLemmas.{append_cancel_left, append_assoc, append_inj}
use text.Mathlib.TextPositions.{starts_with-append, slice-append_right, len-append}
use shippy.Prelude.{String, ◌≡◌, ◌≢◌, refl, sym, ◌∙◌, ap, ◌==◌, eq_iff, true}
use shippy.Reservation.Cache.{id_key, data_key, trim_id, id_prefix}

-- No key is in both spaces.
pub id_key-ne-data_key : (i j : String) → id_key i ≢ data_key j
unfolding id_key data_key
id_key-ne-data_key i j h =
    let split : ("reservation" ++ (":" ++ i)) ≡ ("reservation" ++ ("_" ++ ("data:" ++ j))) =
      sym (append_assoc "reservation" ":" i)
      ∙ h
      ∙ append_assoc "reservation" "_data:" j
      ∙ ap (λ t. "reservation" ++ t) (append_assoc "_" "data:" j) in
    let tails : (":" ++ i) ≡ ("_" ++ ("data:" ++ j)) =
      append_cancel_left "reservation" (":" ++ i) ("_" ++ ("data:" ++ j)) split in
    let (heads, _) = append_inj {s₁ = ":"} {s₂ = "_"} {t₁ = i} {t₂ = "data:" ++ j} tails refl in
    let same : (":" == "_") ≡ true = (eq_iff ":" "_").1 heads in cc

-- The id of an id key is read back.
pub trim_id-id_key : (id : String) → trim_id (id_key id) ≡ id
unfolding trim_id id_key
trim_id-id_key id =
    rw (starts_with-append id_prefix id, len-append id_prefix id) (slice-append_right id_prefix id)
