-- ===== src/Knowledge/Errors.antt =====
-- application/common/errors.py and knowledge/authorization.py: failures as values, and the one
-- exception that a modelled call raises.
use rag_enterprise.Prelude.{String}

pub data ErrorCode : Type 0 where
  validation_failed handler_not_found unauthorized forbidden not_found_code conflict_code
        internal_error :
      ErrorCode

pub record ApplicationError : Type 0 where
  pub code : ErrorCode
  pub message : String

pub data Exception : Type 0 where
  key_error : Exception

-- `Result.ok`, `Result.fail`, and an exception that leaves the handler.
pub data Outcome (A : Type 0) : Type 0 where
  ok : A → Outcome A
  fail : ApplicationError → Outcome A
  raised : Exception → Outcome A

abbrev pub conflict : String → ApplicationError
conflict message = record { code = conflict_code; message = message }

-- `not_found(resource)`: the message names the resource.
abbrev pub not_found : String → ApplicationError
not_found resource = record { code = not_found_code; message = resource }

abbrev pub forbidden_error : ApplicationError
forbidden_error = record { code = forbidden; message = "Permission denied" }

abbrev pub validation_error : String → ApplicationError
validation_error message = record { code = validation_failed; message = message }
