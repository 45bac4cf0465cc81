-- ===== src/Client/Queue/Order.antt =====
-- Which call gets which response, when the two halves of a call are separated neither by another call nor by the
-- connection callback, and the connection is not lost. The server answers the requests in their order.
use mmkvc.Prelude.{
  ℕ, Bool, true, false, List, [], ◌∷◌, ◌++◌, map, append_assoc, append-nil, Option, none, some, ◌≡◌,
  refl, sym, ap, subst, ◌∙◌, Bool-cases, inl, inr,
}
use mathlib.Core.List.{map-append}
use mathlib.Core.Option.{some-injective}
use mmkvc.Protocol.Types.{Weight}
use mmkvc.Protocol.Request.{Request}
use mmkvc.Protocol.Response.{Response}
use mmkvc.Client.Value.{MmkvValue, new_value, from_response}
use mmkvc.Client.Queue.{MmkvClient, new_client, push_call, send_request, on_connected, on_message}

clash : (b : Bool) → b ≡ false → b ≡ true → ⊥
clash b off on = cc

no_first : {A : Type 0} (x : A) (xs : List A) → x ∷ xs ≡ [] → ⊥
no_first x xs e = cc

first_same : {A : Type 0} (x y : A) (xs ys : List A) → x ∷ xs ≡ y ∷ ys → x ≡ y
first_same x y xs ys e = cc

rest_same : {A : Type 0} (x y : A) (xs ys : List A) → x ∷ xs ≡ y ∷ ys → xs ≡ ys
rest_same x y xs ys e = cc

at_end :
    {A : Type 0} (xs ys : List A) (x : A) → ys ≡ [] → (xs ++ x ∷ []) ++ ys ≡ (xs ++ ys) ++ x ∷ []
at_end xs ys x e = simp (e, append-nil)

-- the request that is neither sent nor queued yet
abbrev pub to_send : Option Request → List Request
to_send none = []
to_send (some req) = req ∷ []

-- `answer` is the server, `garbage` the status code of a new value.
module _ (double_of : ℕ → Weight) (answer : Request → Response) (garbage : ℕ) {C : Type 0} where
  -- What can happen to a client: the calls that were made, in their order, the request of the call that is
  -- between its two halves, and the client. While a call is there, no other one begins and the connection
  -- callback does not run; responses can come at any time. The connection
  -- is there for `GetConnection()` from its callback on, and stays.
  pub data Reached : List (Request × C) → Option Request → MmkvClient C → Type 0 where
    start : Reached [] none new_client
    puts :
        {made : List (Request × C)} {c : MmkvClient C} (req : Request) (cb : C)
        → Reached made none c
        → Reached (made ++ (req, cb) ∷ []) (some req) (push_call garbage cb c)
    sends :
        {made : List (Request × C)} {c : MmkvClient C} (req : Request)
        → Reached made (some req) c
        → Reached made none (send_request req c)
    connects :
        {made : List (Request × C)} {c : MmkvClient C}
        → Reached made none c
        → c.connected ≡ false
        → Reached made none (on_connected c)
    answers :
        {made : List (Request × C)} {underway : Option Request} {c : MmkvClient C} (req : Request)
        (rest : List Request) (c' : MmkvClient C)
        → Reached made underway c
        → c.sent ≡ req ∷ rest
        → on_message double_of (answer req) (record c { sent = rest }) ≡ some c'
        → Reached made underway c'

  -- a call that waits for its response, and one that has it
  abbrev pub waiting : Request × C → MmkvValue × C
  waiting (req, cb) = (new_value garbage, cb)

  abbrev pub served : Request × C → C × MmkvValue
  served (req, cb) = (cb, from_response double_of (answer req) (new_value garbage))

  abbrev pub request_of : Request × C → Request
  request_of (req, cb) = req

  -- The first of the calls are done, each with the response to its own request; the others wait, in order.
  pub record Matched (made : List (Request × C)) (underway : Option Request) (c : MmkvClient C)
      : Type 0 where
    pub done : List (Request × C)
    pub left : List (Request × C)
    pub split : made ≡ done ++ left
    pub results : c.finished ≡ map served done
    pub waits : c.cbq ≡ map waiting left
    pub requests : (c.sent ++ c.pending_requestq) ++ to_send underway ≡ map request_of left
    pub no_backlog : c.connected ≡ true → c.pending_requestq ≡ []

  Matched-puts :
      (made : List (Request × C)) (c : MmkvClient C) (req : Request) (cb : C)
      → Matched made none c
      → Matched (made ++ (req, cb) ∷ []) (some req) (push_call garbage cb c)
  unfolding push_call
  Matched-puts made c req cb m = record {
    done = m.done;
    left = m.left ++ (req, cb) ∷ [];
    split = ap (λ xs. xs ++ (req, cb) ∷ []) m.split ∙ append_assoc m.done m.left ((req, cb) ∷ []);
    results = m.results;
    waits =
        ap (λ xs. xs ++ (new_value garbage, cb) ∷ []) m.waits
        ∙ sym (map-append waiting m.left ((req, cb) ∷ []));
    requests =
        ap (λ xs. xs ++ req ∷ []) (sym (append-nil (c.sent ++ c.pending_requestq)) ∙ m.requests)
        ∙ sym (map-append request_of m.left ((req, cb) ∷ []));
    no_backlog = m.no_backlog;
  }

  Matched-sends :
      (made : List (Request × C)) (c : MmkvClient C) (req : Request)
      → Matched made (some req) c
      → Matched made none (send_request req c)
  unfolding send_request
  Matched-sends made c req m = elim (Bool-cases c.connected) [
    | inl on ↦
        let empty = m.no_backlog on in
        rw on (record {
          done = m.done;
          left = m.left;
          split = m.split;
          results = m.results;
          waits = m.waits;
          requests =
              append-nil ((c.sent ++ req ∷ []) ++ c.pending_requestq)
              ∙ at_end c.sent c.pending_requestq req empty
              ∙ m.requests;
          no_backlog = λ e. empty;
        })
    | inr off ↦ rw off (record {
      done = m.done;
      left = m.left;
      split = m.split;
      results = m.results;
      waits = m.waits;
      requests =
          append-nil (c.sent ++ (c.pending_requestq ++ req ∷ []))
          ∙ sym (append_assoc c.sent c.pending_requestq (req ∷ []))
          ∙ m.requests;
      no_backlog = λ e. absurd (clash false refl e);
    })
  ]

  Matched-connects :
      (made : List (Request × C)) (c : MmkvClient C)
      → Matched made none c
      → Matched made none (on_connected c)
  unfolding on_connected
  Matched-connects made c m = record {
    done = m.done;
    left = m.left;
    split = m.split;
    results = m.results;
    waits = m.waits;
    requests = ap (λ xs. xs ++ []) (append-nil (c.sent ++ c.pending_requestq)) ∙ m.requests;
    no_backlog = λ e. refl;
  }

  -- A response is for the request of the call that waits longest.
  popped :
      (c : MmkvClient C) (req : Request) (rest : List Request) (call : Request × C)
      (left : List (Request × C))
      → c.cbq ≡ map waiting (call ∷ left)
      → on_message double_of (answer req) (record c { sent = rest })
        ≡ some (record c {
          sent = rest;
          cbq = map waiting left;
          finished =
              c.finished ++ (call.1, from_response double_of (answer req) (new_value garbage)) ∷ [];
        })
  unfolding on_message
  popped c req rest call left waits = rw (waits, on_message) refl

  Matched-pops :
      (made done left : List (Request × C)) (underway : Option Request) (c : MmkvClient C)
      (req : Request) (rest : List Request) (c' : MmkvClient C)
      → made ≡ done ++ left
      → c.finished ≡ map served done
      → c.cbq ≡ map waiting left
      → (c.sent ++ c.pending_requestq) ++ to_send underway ≡ map request_of left
      → (c.connected ≡ true → c.pending_requestq ≡ [])
      → c.sent ≡ req ∷ rest
      → on_message double_of (answer req) (record c { sent = rest }) ≡ some c'
      → Matched made underway c'
  Matched-pops made done [] underway c req rest c' split results waits requests backlog e run =
      absurd (
        no_first req ((rest ++ c.pending_requestq) ++ to_send underway)
          (ap (λ xs. (xs ++ c.pending_requestq) ++ to_send underway) (sym e) ∙ requests))
  Matched-pops made done ((req', cb) ∷ left) underway c req rest c' split results waits requests
        backlog e run =
      let line = ap (λ xs. (xs ++ c.pending_requestq) ++ to_send underway) (sym e) ∙ requests in
      let behind = (rest ++ c.pending_requestq) ++ to_send underway in
      let same = first_same req req' behind (map request_of left) line in
      let after = rest_same req req' behind (map request_of left) line in
      let next = popped c req rest (req', cb) left waits in
      subst (Matched made underway) (some-injective _ _ (sym next ∙ run)) (record {
        done = done ++ (req', cb) ∷ [];
        left = left;
        split = split ∙ sym (append_assoc done ((req', cb) ∷ []) left);
        results =
            ap (λ xs. xs ++ (cb, from_response double_of (answer req) (new_value garbage)) ∷ [])
              results
            ∙ ap
                (λ q.
                  map served done
                  ++ (cb, from_response double_of (answer q) (new_value garbage)) ∷ [])
                same
            ∙ sym (map-append served done ((req', cb) ∷ []));
        waits = refl;
        requests = after;
        no_backlog = backlog;
      })

  -- In every run in which no other call and not the connection callback comes between the two
  -- halves of a call, the connection is there from its callback on and is not lost, and the server
  -- answers the requests in their order, whenever the responses come: the calls that are done are
  -- the first that were made, each with the value of the response to its own request, the others
  -- wait in their order, their requests are the sent ones, then the queued ones, then that of the
  -- call between its halves, and no request is queued once the connection is there.
  pub Reached-Matched :
      (made : List (Request × C)) (underway : Option Request) (c : MmkvClient C)
      → Reached made underway c
      → Matched made underway c
  Reached-Matched _ _ _ start = record {
    done = [];
    left = [];
    split = refl;
    results = refl;
    waits = refl;
    requests = refl;
    no_backlog = λ e. refl;
  }
  Reached-Matched _ _ _ (puts {made} {c} req cb r) =
      Matched-puts made c req cb (Reached-Matched made none c r)
  Reached-Matched _ _ _ (sends {made} {c} req r) =
      Matched-sends made c req (Reached-Matched made (some req) c r)
  Reached-Matched _ _ _ (connects {made} {c} r off) =
      Matched-connects made c (Reached-Matched made none c r)
  Reached-Matched _ _ _ (answers {made} {underway} {c} req rest c' r e run) =
      let m = Reached-Matched made underway c r in
      Matched-pops made m.done m.left underway c req rest c' m.split m.results m.waits m.requests
        m.no_backlog e run
