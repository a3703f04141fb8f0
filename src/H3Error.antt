-- ===== src/H3Error.antt =====
-- wtransport/src/error.rs: an HTTP/3 error with its reason.
use Prim.Native.String.{String}
use wtransport.ErrorCode.{ErrorCode}

pub record H3Error : Type 0 where
  pub code : ErrorCode
  pub reason : String
