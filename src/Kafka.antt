-- ===== src/Kafka.antt =====
-- The Kafka client that the services share (pkg/kafka).
pub mod Consumer
pub mod Producer
pub mod Headers
pub mod Admin
use shippy.Prelude.{ℕ, String}

-- The codes that the client tells apart.
pub data ErrorCode : Type 0 where
  no_error timed_out msg_timed_out transport topic_already_exists other : ErrorCode

pub record TopicPartition : Type 0 where
  pub topic : String
  pub partition : ℕ
