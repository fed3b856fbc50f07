-- ===== src/Rpc/Errors.antt =====
-- src/rpc.rs `is_transient`: which errors of the client are safe to retry.
use y_delta_crankers.Base.{Bool, true, false, ◌&&◌, codes, contains_text}
use y_delta_crankers.Base.Int.{negsuc, leb_ℤ}
use y_delta_crankers.System.Types.{
  ClientError, ClientErrorKind, io, reqwest, other_kind, rpc_error, RpcErrorKind, for_user,
  rpc_response_error, other_rpc,
}

abbrev pub is_transient_rpc : RpcErrorKind → Bool
is_transient_rpc (for_user msg) = contains_text (codes "Blockhash not found") msg
-- -32099..=-32000
is_transient_rpc (rpc_response_error code) = leb_ℤ (negsuc 32098) code && leb_ℤ code (negsuc 31999)
is_transient_rpc other_rpc = false

abbrev pub is_transient_kind : ClientErrorKind → Bool
is_transient_kind io = true
is_transient_kind reqwest = true
is_transient_kind (rpc_error e) = is_transient_rpc e
is_transient_kind other_kind = false

unfoldable pub is_transient : ClientError → Bool
is_transient e = is_transient_kind e.kind
