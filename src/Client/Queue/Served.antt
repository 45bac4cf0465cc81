-- ===== src/Client/Queue/Served.antt =====
-- What the callbacks get when the server answers all requests, and what they can read of it.
use mmkvc.Prelude.{
  ℕ, Bool, true, List, [], ◌∷◌, ◌++◌, map, append_assoc, append-nil, Option, none, some, ◌≡◌, refl,
  sym, ap, subst, ◌∙◌,
}
use mathlib.Core.List.{map-append}
use mmkvc.Protocol.Types.{Weight}
use mmkvc.Protocol.Request.{Request}
use mmkvc.Protocol.Response.{Response}
use mmkvc.Client.Value.{MmkvValue, from_response, to_str_value}
use mmkvc.Algo.Ordered.Sorted.{All}
use mmkvc.Client.Queue.Order.{Reached, Reached-Matched, waiting, served, request_of}
use mmkvc.Client.Queue.{MmkvClient, on_message}

module _ (double_of : ℕ → Weight) (answer : Request → Response) {C : Type 0} where
  -- the server answers all that was sent
  unfoldable pub receive_all : List Request → MmkvClient C → Option (MmkvClient C)
  unfolding on_message
  receive_all [] c = some c
  receive_all (req ∷ rest) c = elim (on_message double_of (answer req) (record c { sent = rest })) [
    | none ↦ none
    | some c' ↦ receive_all rest c'
  ]

module _ {C : Type 0} where
  -- what a callback reads by `ToStrValue`
  abbrev pub Unreadable : C × MmkvValue → Type 0
  Unreadable (cb, v) = to_str_value v ≡ none

module _ (double_of : ℕ → Weight) (answer : Request → Response) (garbage : ℕ) {C : Type 0} where
  receive_left :
      (left : List (Request × C)) (on : Bool) (pending : List Request)
      (finished : List (C × MmkvValue))
      → receive_all double_of answer (map (request_of double_of answer garbage) left) (record {
        pending_requestq = pending;
        cbq = map (waiting double_of answer garbage) left;
        connected = on;
        sent = map (request_of double_of answer garbage) left;
        finished = finished;
      })
        ≡ some (record {
          pending_requestq = pending;
          cbq = [];
          connected = on;
          sent = [];
          finished = finished ++ map (served double_of answer garbage) left;
        })
  unfolding receive_all on_message
  receive_left [] on pending finished =
      ap
        (λ xs. some (record {
          pending_requestq = pending;
          cbq = [];
          connected = on;
          sent = [];
          finished = xs;
        }))
        (sym (append-nil finished))
  receive_left ((req, cb) ∷ left) on pending finished =
      receive_left left on pending (finished ++ served double_of answer garbage (req, cb) ∷ [])
      ∙ ap
          (λ xs. some (record {
            pending_requestq = pending;
            cbq = [];
            connected = on;
            sent = [];
            finished = xs;
          }))
          (append_assoc finished (served double_of answer garbage (req, cb) ∷ [])
            (map (served double_of answer garbage) left))

  receive_waiting :
      (p : List Request) (q : List (MmkvValue × C)) (on : Bool) (s : List Request)
      (f : List (C × MmkvValue)) (left : List (Request × C))
      → s ≡ map (request_of double_of answer garbage) left
      → p ≡ []
      → q ≡ map (waiting double_of answer garbage) left
      → on ≡ true
      → receive_all double_of answer s
          (record { pending_requestq = p; cbq = q; connected = on; sent = s; finished = f })
        ≡ some (record {
          pending_requestq = [];
          cbq = [];
          connected = true;
          sent = [];
          finished = f ++ map (served double_of answer garbage) left;
        })
  receive_waiting p q on s f left e1 e2 e3 e4 = rw (e1, e2, e3, e4) (receive_left left true [] f)

  -- After a run in which no other call and not the connection callback comes between the two
  -- halves of a call, the connection is there from its callback on and is not lost, and the server
  -- answers the requests in their order, between two calls and with the connection there, if the
  -- server answers all that was sent: the message callback finds a waiting call for each response,
  -- and at the end every call that was made is done, in order, with the response to its own
  -- request.
  pub receive_all-served :
      (made : List (Request × C)) (c : MmkvClient C)
      → Reached double_of answer garbage made none c
      → c.connected ≡ true
      → receive_all double_of answer c.sent c
        ≡ some (record {
          pending_requestq = [];
          cbq = [];
          connected = true;
          sent = [];
          finished = map (served double_of answer garbage) made;
        })
  receive_all-served made c r on =
      let m = Reached-Matched double_of answer garbage made none c r in
      let line : c.sent ≡ map (request_of double_of answer garbage) m.left =
        sym (append-nil c.sent)
        ∙ ap (λ xs. c.sent ++ xs) (sym (m.no_backlog on))
        ∙ sym (append-nil (c.sent ++ c.pending_requestq))
        ∙ m.requests in
      let all =
        ap (λ xs. xs ++ map (served double_of answer garbage) m.left) m.results
        ∙ sym (map-append (served double_of answer garbage) m.done m.left)
        ∙ ap (map (served double_of answer garbage)) (sym m.split) in
      receive_waiting c.pending_requestq c.cbq c.connected c.sent c.finished m.left line
        (m.no_backlog on) m.waits on
      ∙ ap
          (λ xs. some (record {
            pending_requestq = [];
            cbq = [];
            connected = true;
            sent = [];
            finished = xs;
          }))
          all

  served-Unreadable :
      (done : List (Request × C)) → All Unreadable (map (served double_of answer garbage) done)
  unfolding from_response to_str_value
  served-Unreadable [] = tt
  served-Unreadable (call ∷ done) = (refl, served-Unreadable done)

  -- After a run in which no other call and not the connection callback comes between the two
  -- halves of a call, the connection is there from its callback on and is not lost, and the server
  -- answers the requests in their order, no callback, that of `GetStr` included, can read a string
  -- from its value by `ToStrValue`: the assertion there fails for every response.
  pub finished-Unreadable :
      (made : List (Request × C)) (underway : Option Request) (c : MmkvClient C)
      → Reached double_of answer garbage made underway c
      → All Unreadable c.finished
  finished-Unreadable made underway c r =
      let m = Reached-Matched double_of answer garbage made underway c r in
      subst (All Unreadable) (sym m.results) (served-Unreadable m.done)
