-- ===== src/Common/Errors.antt =====
-- The exceptions of the backend, and `str(exc)`.
use Prim.Native.String.{String, ◌++◌}

-- The classes of `OSError` that the program tells apart.
pub data OsKind : Type 0 where
  file_not_found : OsKind
  file_exists : OsKind
  permission : OsKind
  is_a_directory : OsKind
  not_a_directory : OsKind
  other_kind : OsKind

pub data Exc : Type 0 where
  -- `RpcException(code, message)`, also as the `RpcCallError` of a caller
  rpc_exception : String → String → Exc
  -- the `code` and the message of a service's own error class
  service_error : String → String → Exc
  runtime_error : String → Exc
  mkfs_error : String → Exc
  mount_unit_error : String → Exc
  config_validation_error : String → Exc
  config_apply_error : String → Exc
  -- a model that pydantic refuses
  validation_error : Exc
  index_error : Exc
  assertion_error : Exc
  system_user_error : String → Exc
  acl_error : String → Exc
  os_error : OsKind → String → Exc
  -- a row that breaks a unique column
  integrity_error : Exc
  -- any other exception, with its text
  other_error : String → Exc

unfoldable pub exc_str : Exc → String
exc_str (rpc_exception code message) = code ++ (": " ++ message)
exc_str (service_error code message) = message
exc_str (runtime_error message) = message
exc_str (mkfs_error message) = message
exc_str (mount_unit_error message) = message
exc_str (config_validation_error detail) = detail
exc_str (config_apply_error detail) = detail
exc_str (system_user_error message) = message
exc_str (acl_error message) = message
exc_str (os_error kind message) = message
exc_str integrity_error = "IntegrityError"
exc_str validation_error = "validation error"
exc_str index_error = "list index out of range"
exc_str assertion_error = ""
exc_str (other_error message) = message
