-- ===== src/Gateway.antt =====
-- The HTTP gateway (cmd/gateway): what it answers.
pub mod Middleware
pub mod Handler
pub mod Access
pub mod Login
pub mod Confirm
mod Tests
use shippy.Prelude.{
  ℕ, String, Bool, true, false, List, Error, status, unauthenticated, wrap, Code, not_found,
  failed_precondition, Option, none, some,
}
use shippy.Consignment.Messages.{ConsignmentMessage}

-- The JSON of an answer; `error_of` has the message of the error.
pub data Body : Type 0 where
  no_body : Body
  error_text : String → Body
  error_of : Error → Body
  token_body id_body : String → Body
  consignments_body : List ConsignmentMessage → Body

pub record HttpResponse : Type 0 where
  pub code : ℕ
  pub body : Body

-- `status.FromError(err)` and its code, which another error has none of.
abbrev pub code_of : Error → Option Code
code_of (status c) = some c
code_of (wrap _ e) = code_of e
code_of _ = none
