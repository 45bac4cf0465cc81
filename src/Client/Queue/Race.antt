-- ===== src/Client/Queue/Race.antt =====
-- Two calls whose halves are interleaved: `PrepareOutstandingCall` gives up the lock of `cbq_` before it sends.
use mmkvc.Prelude.{ℕ, true, List, [], ◌∷◌, ◌++◌, some, ◌≡◌, ap, append_assoc}
use mmkvc.Protocol.Types.{Weight}
use mmkvc.Protocol.Request.{Request}
use mmkvc.Protocol.Response.{Response}
use mmkvc.Client.Value.{MmkvValue, new_value, from_response}
use mmkvc.Client.Queue.{MmkvClient, push_call, send_request, on_message}
use mmkvc.Client.Queue.Served.{receive_all}

module _ {C : Type 0} where
  -- a client that waits for nothing
  abbrev pub at_rest : List (C × MmkvValue) → MmkvClient C
  at_rest finished = record {
    pending_requestq = [];
    cbq = [];
    connected = true;
    sent = [];
    finished = finished;
  }

  -- One thread puts its callback first, and the other one sends first.
  unfoldable pub interleaved : ℕ → Request × C → Request × C → MmkvClient C → MmkvClient C
  unfolding push_call send_request
  interleaved garbage (req1, cb1) (req2, cb2) c =
      send_request req1 (send_request req2 (push_call garbage cb2 (push_call garbage cb1 c)))

module _ (double_of : ℕ → Weight) (answer : Request → Response) (garbage : ℕ) {C : Type 0} where
  -- If one thread puts its callback first and another one sends first, on a connected client that
  -- waits for nothing, each of the two callbacks gets the response to the request of the other.
  pub interleaved-receive_all :
      (req1 req2 : Request) (cb1 cb2 : C) (finished : List (C × MmkvValue))
      → let c = interleaved garbage (req1, cb1) (req2, cb2) (at_rest finished) in
        receive_all double_of answer c.sent c
        ≡ some (
            at_rest (
              finished
              ++ (cb1, from_response double_of (answer req2) (new_value garbage))
                ∷ (cb2, from_response double_of (answer req1) (new_value garbage))
                ∷ []))
  unfolding interleaved receive_all on_message
  interleaved-receive_all req1 req2 cb1 cb2 finished =
      ap (λ xs. some (at_rest xs)) (append_assoc finished _ _)
