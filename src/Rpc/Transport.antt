-- ===== src/Rpc/Transport.antt =====
-- The calls in flight of `UnixSocketTransport` of rpc/transport.py. A future is waiting, or holds a
-- response or an exception. `J` is the type of JSON values.
pub mod Settled
use nas_os.Common.{
  String, Bool, true, false, Option, none, some, List, [], ◌∷◌, Result, ok, err, is_some, ◌≡◌,
  if◌then◌else◌, string_eq,
}
use nas_os.Common.Dict
use nas_os.Common.Dict.{Dict}
use nas_os.Common.Errors.{Exc, other_error, rpc_exception, assertion_error}

pub record RpcError : Type 0 where
  pub code : String
  pub message : String

-- `RpcResponse`; `succeeded` is its field `ok`.
pub record RpcResponse (J : Type 0) : Type 0 where
  pub id : String
  pub succeeded : Bool
  pub result : Option J
  pub error : Option RpcError

pub data Future (J : Type 0) : Type 0 where
  waiting : Future J
  settled : Result Exc (RpcResponse J) → Future J

module _ (J : Type 0) where
  -- `_pending`, and the futures that calls wait for.
  pub record Calls : Type 0 where
    pub pending : Dict String (Unit {0})
    pub futures : Dict String (Future J)

-- What `call` makes of the response.
unfoldable pub error_of : Option RpcError → Exc
error_of none = assertion_error
error_of (some e) = rpc_exception e.code e.message

module _ {J : Type 0} where
  abbrev pub no_calls : Calls J
  no_calls = record { pending = []; futures = [] }

  -- `call`, up to the wait: the future of a new identifier is made and entered.
  unfoldable pub begin_call : String → Calls J → Calls J
  begin_call id c = record {
    pending = Dict.insert id tt c.pending;
    futures = Dict.insert id waiting c.futures;
  }

  -- `if fut is not None and not fut.done()`: a waiting future is given its outcome.
  unfoldable pub settle :
      Result Exc (RpcResponse J)
      → String
      → Option (Future J)
      → Dict String (Future J)
      → Dict String (Future J)
  settle outcome id (some waiting) futures = Dict.insert id (settled outcome) futures
  settle outcome id (some (settled _)) futures = futures
  settle outcome id none futures = futures

  -- `_dispatch_frame`, for a response; the other frames do not change the calls.
  unfoldable pub dispatch_response : RpcResponse J → Calls J → Calls J
  unfolding settle
  dispatch_response resp c =
      if is_some (Dict.lookup resp.id c.pending)
      then record {
        pending = Dict.erase resp.id c.pending;
        futures = settle (ok resp) resp.id (Dict.lookup resp.id c.futures) c.futures;
      }
      else c

  -- The loop at the end of `_read_loop`.
  unfoldable pub fail_all : Dict String (Unit {0}) → Dict String (Future J) → Dict String (Future J)
  unfolding settle
  fail_all [] futures = futures
  fail_all ((id, _) ∷ pending) futures =
      fail_all pending
        (settle (err (other_error "agent connection closed")) id (Dict.lookup id futures) futures)

  unfoldable pub close_connection : Calls J → Calls J
  unfolding fail_all
  close_connection c = record { pending = []; futures = fail_all c.pending c.futures }

  unfoldable pub is_waiting : Option (Future J) → Bool
  is_waiting (some waiting) = true
  is_waiting (some (settled _)) = false
  is_waiting none = false

  -- `finally: self._pending.pop(req.id, None)`, which a call reaches when its future is settled.
  unfoldable pub end_call : String → Calls J → Calls J
  unfolding is_waiting
  end_call id c =
      if is_waiting (Dict.lookup id c.futures)
      then c
      else record { pending = Dict.erase id c.pending; futures = c.futures }

  -- `resp.result or {}`, for the empty object.
  unfoldable pub result_or : J → Option J → J
  result_or empty none = empty
  result_or empty (some result) = result

  unfoldable pub answer_of : J → RpcResponse J → Result Exc J
  unfolding error_of result_or
  answer_of empty resp =
      if resp.succeeded then ok (result_or empty resp.result) else err (error_of resp.error)

-- What can happen to the calls of one connection after the other.
pub data Reach (J : Type 0) : Calls J → Type 0 where
  initial : Reach J no_calls
  begun : {c : Calls J} (id : String) → Reach J c → Reach J (begin_call id c)
  answered : {c : Calls J} (resp : RpcResponse J) → Reach J c → Reach J (dispatch_response resp c)
  closed : {c : Calls J} → Reach J c → Reach J (close_connection c)
  ended : {c : Calls J} (id : String) → Reach J c → Reach J (end_call id c)
