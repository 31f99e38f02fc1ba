-- ===== src/Kafka/Admin.antt =====
-- The creation of topics (pkg/kafka/admin.go).
use shippy.Prelude.{
  ◌≡◌, refl, ◌↔◌, Bool-cases, inl, inr, ℕ, String, Bool, true, false, List, [], ◌∷◌, Result, ok,
  err, errorf, wrap, Exec, lift, with_text, ◌>>=◌, if◌then◌else◌, ⊤, ◌≡◌, ◌↔◌, Bool-cases, inl, inr,
}
use shippy.Prelude.Collection.{All}
use shippy.Kafka.{ErrorCode, no_error, topic_already_exists}

pub record TopicConfig : Type 0 where
  pub name : String
  pub num_partitions : ℕ
  pub replication_factor : ℕ

-- `kafka.TopicResult`
pub record TopicResult : Type 0 where
  pub topic : String
  pub code : ErrorCode

-- `kafka.AdminClient`
pub record AdminClient : Type 1 where
  pub State : Type 0
  pub new : Exec State ⊤
  pub create_topics : List TopicConfig → Exec State (List TopicResult)
  pub close : Exec State ⊤

abbrev pub is_created : ErrorCode → Bool
is_created no_error = true
is_created topic_already_exists = true
is_created _ = false

-- The loop over the results.
unfoldable pub check_results : List TopicResult → Result ⊤
check_results [] = ok tt
check_results (r ∷ rs) =
    if is_created r.code
    then check_results rs
    else err (wrap "failed to create topic" (errorf r.topic))

module _ (admin : AdminClient) where
  abbrev pub then_close : Exec admin.State ⊤ → Exec admin.State ⊤
  then_close m s = ((m s).0, (admin.close (m s).1).1)

  unfoldable pub ensure_topics : List TopicConfig → Exec admin.State ⊤
  ensure_topics topics = with_text "failed to create admin client" admin.new >>= λ _. then_close (
      with_text "failed to create topics" (admin.create_topics topics) >>= λ rs.
      lift (check_results rs))

-- The loop succeeds exactly when every topic is new or was there.
pub check_results_lem :
    (rs : List TopicResult) → (check_results rs ≡ ok tt) ↔ All (λ r. is_created r.code ≡ true) rs
unfolding check_results
check_results_lem [] = (λ _. tt, λ _. refl)
check_results_lem (r ∷ rs) =
    let (f, g) = check_results_lem rs in
    elim (Bool-cases (is_created r.code)) [
      | inl p ↦ rw p (λ h. (refl, f h), λ h. g h.1)
      | inr p ↦ rw p (λ h. cc, λ h. cc)
    ]
