-- ===== src/Errors.antt =====
-- src/data/error.rs and src/server/api/error.rs: the errors of the data layer, and the status, the
-- code and the message that the API answers with.
use allfeat_explorer.Common.{ℕ, ◌++◌, String, Bytes, codes}

pub data DataError : Type 0 where
  transport rpc decode invalid_payload bad_request network_unconfigured : Bytes → DataError
  unimplemented : String → DataError
  not_supported : String → String → DataError

pub data ApiError : Type 0 where
  not_found client_error internal : Bytes → ApiError

unfoldable pub status : ApiError → ℕ
status (not_found m) = 404
status (client_error m) = 400
status (internal m) = 500

unfoldable pub code : ApiError → String
code (not_found m) = "not_found"
code (client_error m) = "bad_request"
code (internal m) = "internal"

unfoldable pub message : ApiError → Bytes
message (not_found m) = m
message (client_error m) = m
message (internal m) = m

unfoldable pub api_error : DataError → ApiError
api_error (network_unconfigured name) =
    not_found (codes "network '" ++ (name ++ codes "' is not configured"))
api_error (unimplemented what) = internal (codes "unimplemented: " ++ codes what)
api_error (not_supported network what) =
    not_found
      (codes what ++ (codes " is not available on network '" ++ (codes network ++ codes "'")))
api_error (bad_request msg) = client_error msg
api_error (transport msg) = internal msg
api_error (rpc msg) = internal msg
api_error (decode msg) = internal msg
api_error (invalid_payload msg) = internal msg
