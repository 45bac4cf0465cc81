-- ===== src/Tests/Clients.antt =====
-- A client with two calls, of which the first is made before the connection and has been answered.
use mmkvc.Prelude.{ℕ, [], ◌∷◌, map, none, some, true, false, length, ◌+◌, ◌≡◌, refl}
use mmkvc.Algo.Ordered.Sorted.{All}
use mmkvc.Protocol.Types.{Weight}
use mmkvc.Protocol.Request.{Request, new_request}
use mmkvc.Protocol.Response.{Response, new_response}
use mmkvc.Client.Value.{new_value, from_response}
use mmkvc.Client.Queue.{
  MmkvClient, new_client, push_call, send_request, prepare_outstanding_call, add_str_request,
  get_str_request, on_connected, on_message,
}
use mmkvc.Client.Queue.Order.{
  Reached, start, puts, sends, connects, answers, Matched, Reached-Matched, served,
}
use mmkvc.Client.Queue.Served.{receive_all, receive_all-served, Unreadable, finished-Unreadable}
use mmkvc.Client.Queue.Threads.{Ran, fresh, opens, flushes, callbacks, Ran-on_message}
use mmkvc.Client.Queue.Race.{at_rest, interleaved, interleaved-receive_all}

-- a server that answers each request with its own value
abbrev echo : Request → Response
echo req = record (new_response 0) { status_code = req.command; value = req.value }

abbrev as_weight : ℕ → Weight
as_weight n = n

-- STR_ADD of "a" with the value "x", and STR_GET of "a"
abbrev put_a : Request
put_a = add_str_request (97 ∷ []) (120 ∷ []) (new_request 0 0 0)

abbrev get_a : Request
get_a = get_str_request (97 ∷ []) (new_request 0 0 0)

abbrev waiting_one : MmkvClient ℕ
waiting_one = prepare_outstanding_call 16 put_a 1 new_client

abbrev connected_two : MmkvClient ℕ
connected_two = prepare_outstanding_call 16 get_a 2 (on_connected waiting_one)

abbrev answered_one : MmkvClient ℕ
answered_one = record {
  pending_requestq = [];
  cbq = (new_value 16, 2) ∷ [];
  connected = true;
  sent = get_a ∷ [];
  finished = (1, from_response as_weight (echo put_a) (new_value 16)) ∷ [];
}

two_calls : Reached as_weight echo 16 ((put_a, 1) ∷ (get_a, 2) ∷ []) none connected_two
unfolding prepare_outstanding_call push_call send_request on_connected
two_calls = sends get_a (puts get_a 2 (connects (sends put_a (puts put_a 1 start)) refl))

one_answer : Reached as_weight echo 16 ((put_a, 1) ∷ (get_a, 2) ∷ []) none answered_one
unfolding prepare_outstanding_call push_call send_request on_connected on_message
one_answer = answers put_a (get_a ∷ []) answered_one two_calls refl refl

Reached-Matched_example : Matched as_weight echo 16 ((put_a, 1) ∷ (get_a, 2) ∷ []) none answered_one
Reached-Matched_example =
    Reached-Matched as_weight echo 16 ((put_a, 1) ∷ (get_a, 2) ∷ []) none answered_one one_answer

receive_all-served_example :
    receive_all as_weight echo (get_a ∷ []) answered_one
    ≡ some (record {
      pending_requestq = [];
      cbq = [];
      connected = true;
      sent = [];
      finished = map (served as_weight echo 16) ((put_a, 1) ∷ (get_a, 2) ∷ []);
    })
receive_all-served_example =
    receive_all-served as_weight echo 16 ((put_a, 1) ∷ (get_a, 2) ∷ []) answered_one one_answer refl

finished-Unreadable_example : All Unreadable answered_one.finished
finished-Unreadable_example =
    finished-Unreadable as_weight echo 16 ((put_a, 1) ∷ (get_a, 2) ∷ []) none answered_one
      one_answer

abbrev crossed : MmkvClient ℕ
crossed = interleaved 16 (put_a, 1) (get_a, 2) (at_rest [])

interleaved-receive_all_example :
    receive_all as_weight echo crossed.sent crossed
    ≡ some (
        at_rest (
          (1, from_response as_weight (echo get_a) (new_value 16))
          ∷ (2, from_response as_weight (echo put_a) (new_value 16))
          ∷ []))
interleaved-receive_all_example = interleaved-receive_all as_weight echo 16 put_a get_a 1 2 []

-- A call is made while the client connects: its request is queued behind the connection callback, and the
-- request of a later call is sent.
abbrev stuck_one : MmkvClient ℕ
stuck_one = record {
  pending_requestq = put_a ∷ [];
  cbq = (new_value 16, 1) ∷ (new_value 16, 2) ∷ [];
  connected = true;
  sent = get_a ∷ [];
  finished = [];
}

stuck_run : Ran as_weight (1 ∷ 2 ∷ []) [] stuck_one
unfolding push_call on_connected
stuck_run = Ran.sends [] [] get_a true (
    Ran.looks [] [] get_a (
      Ran.puts 16 get_a 2 (
        Ran.sends [] [] put_a false
          (flushes (opens (Ran.looks [] [] put_a (Ran.puts 16 put_a 1 fresh)))))))

Ran-on_message_example :
    (callbacks as_weight stuck_one ≡ 1 ∷ 2 ∷ [])
    × ((c' : MmkvClient ℕ) × (on_message as_weight (echo get_a) (record stuck_one { sent = [] })
          ≡ some c')
        × (callbacks as_weight c' ≡ 1 ∷ 2 ∷ [])
        × (length c'.cbq + 1 ≡ 2))
Ran-on_message_example =
    Ran-on_message as_weight (1 ∷ 2 ∷ []) [] stuck_one (echo get_a) get_a [] stuck_run refl
