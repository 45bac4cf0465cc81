-- ===== src/Client/Queue.antt =====
-- `MmkvClient` of mmkv/client/mmkv_client.h and mmkv_client.cc: the two queues and the handlers on them. A
-- frame that `codec_.Send` writes is its request; the connection hands the requests to the server in their
-- order, and `connected` says whether `cli_->GetConnection()` is there.
pub mod Order
pub mod Served
pub mod Race
pub mod Threads
use mmkvc.Prelude.{ℕ, Bool, true, false, if◌then◌else◌, List, [], ◌∷◌, ◌++◌, Option, none, some}
use mmkvc.Protocol.Types.{Str, Weight}
use mmkvc.Protocol.Request.{Request, mark}
use mmkvc.Protocol.Response.{Response}
use mmkvc.Client.Value.{MmkvValue, new_value, from_response}

-- `C` is the type of callbacks. `sent` are the requests on the connection that the server has not
-- answered; `finished` are the outstanding calls that were taken off, each with the value on which its
-- callback is called.
pub record MmkvClient (C : Type 0) : Type 0 where
  pub pending_requestq : List Request
  pub cbq : List (MmkvValue × C)
  pub connected : Bool
  pub sent : List Request
  pub finished : List (C × MmkvValue)

-- the requests of `AddStr(key, value, cb)` and `GetStr(key, cb)`, made of a new one
unfoldable pub add_str_request : Str → Str → Request → Request
unfolding mark
add_str_request key value req =
    mark 1 (record (mark 0 (record req { command = 0; key = key })) { value = value })

unfoldable pub get_str_request : Str → Request → Request
unfolding mark
get_str_request key req = mark 0 (record req { command = 2; key = key })

module _ {C : Type 0} where
  -- `MmkvClient(p_loop, addr)`
  abbrev pub new_client : MmkvClient C
  new_client = record {
    pending_requestq = [];
    cbq = [];
    connected = false;
    sent = [];
    finished = [];
  }

  -- the first half of `PrepareOutstandingCall(req, cb)`, under the lock of `cbq_`
  unfoldable pub push_call : ℕ → C → MmkvClient C → MmkvClient C
  push_call garbage cb c = record c { cbq = c.cbq ++ (new_value garbage, cb) ∷ [] }

  -- the second half, after `cli_->GetConnection()` with the answer `seen`: the request is sent, or queued
  abbrev pub send_by : Bool → Request → MmkvClient C → MmkvClient C
  send_by seen req c =
      if seen
      then record c { sent = c.sent ++ req ∷ [] }
      else record c { pending_requestq = c.pending_requestq ++ req ∷ [] }

  unfoldable pub send_request : Request → MmkvClient C → MmkvClient C
  send_request req c = send_by c.connected req c

  unfoldable pub prepare_outstanding_call : ℕ → Request → C → MmkvClient C → MmkvClient C
  unfolding push_call send_request
  prepare_outstanding_call garbage req cb c = send_request req (push_call garbage cb c)

  -- `AddStr(key, value, cb)` and `GetStr(key, cb)`
  unfoldable pub add_str : ℕ → Str → Str → Request → C → MmkvClient C → MmkvClient C
  unfolding add_str_request prepare_outstanding_call
  add_str garbage key value req cb =
      prepare_outstanding_call garbage (add_str_request key value req) cb

  unfoldable pub get_str : ℕ → Str → Request → C → MmkvClient C → MmkvClient C
  unfolding get_str_request prepare_outstanding_call
  get_str garbage key req cb = prepare_outstanding_call garbage (get_str_request key req) cb

  -- the connection callback, when the connection is made
  unfoldable pub on_connected : MmkvClient C → MmkvClient C
  on_connected c = record c {
    connected = true;
    sent = c.sent ++ c.pending_requestq;
    pending_requestq = [];
  }

  -- the message callback; there is no front of an empty queue
  unfoldable pub on_message : (ℕ → Weight) → Response → MmkvClient C → Option (MmkvClient C)
  on_message double_of resp c = elim (c.cbq) [
    | [] ↦ none
    | (value, cb) ∷ rest ↦ some (record c {
      cbq = rest;
      finished = c.finished ++ (cb, from_response double_of resp value) ∷ [];
    })
  ]
