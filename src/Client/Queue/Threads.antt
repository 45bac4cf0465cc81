-- ===== src/Client/Queue/Threads.antt =====
-- Calls of several threads in any interleaving, with each other and with the two callbacks, while connections
-- come and go.
use mmkvc.Prelude.{
  ℕ, ◌+◌, ◌≤◌, Bool, true, false, List, [], ◌∷◌, ◌++◌, length, length-append, map, append_assoc,
  Option, none, some, ◌≡◌, refl, sym, ap, subst, ◌∙◌, arith,
}
use mathlib.Core.List.{map-append}
use mathlib.Core.Option.{some-injective}
use mmkvc.Protocol.Types.{Weight}
use mmkvc.Protocol.Request.{Request}
use mmkvc.Protocol.Response.{Response}
use mmkvc.Client.Value.{MmkvValue, new_value, from_response}
use mmkvc.Client.Queue.{MmkvClient, new_client, push_call, send_by, on_connected, on_message}

-- a call between its two halves: its request, and what `GetConnection()` has answered, if it has
abbrev pub Underway : Type 0
Underway = Request × Option Bool

length-middle :
    (before after : List Underway) (u : Underway)
    → length (before ++ u ∷ after) ≡ length (before ++ after) + 1
length-middle before after u =
    omega (arith, length-append before (u ∷ after), length-append before after)

module _ (double_of : ℕ → Weight) {C : Type 0} where
  -- What can happen: the callbacks in the order in which they were queued, the calls between their halves,
  -- and the client.
  pub data Ran : List C → List Underway → MmkvClient C → Type 0 where
    fresh : Ran [] [] new_client
    puts :
        {made : List C} {calls : List Underway} {c : MmkvClient C} (garbage : ℕ) (req : Request)
        (cb : C)
        → Ran made calls c
        → Ran (made ++ cb ∷ []) (calls ++ (req, none) ∷ []) (push_call garbage cb c)
    looks :
        {made : List C} {c : MmkvClient C} (before after : List Underway) (req : Request)
        → Ran made (before ++ (req, none) ∷ after) c
        → Ran made (before ++ (req, some c.connected) ∷ after) c
    sends :
        {made : List C} {c : MmkvClient C} (before after : List Underway) (req : Request)
        (seen : Bool)
        → Ran made (before ++ (req, some seen) ∷ after) c
        → Ran made (before ++ after) (send_by seen req c)
    -- the request goes to a connection that is lost
    drops :
        {made : List C} {c : MmkvClient C} (before after : List Underway) (req : Request)
        → Ran made (before ++ (req, some true) ∷ after) c
        → Ran made (before ++ after) c
    -- `GetConnection()` is there from now on
    opens :
        {made : List C} {calls : List Underway} {c : MmkvClient C}
        → Ran made calls c
        → Ran made calls (record c { connected = true })
    flushes :
        {made : List C} {calls : List Underway} {c : MmkvClient C}
        → Ran made calls c
        → Ran made calls (on_connected c)
    loses :
        {made : List C} {calls : List Underway} {c : MmkvClient C}
        → Ran made calls c
        → Ran made calls (record c { connected = false; sent = [] })
    answers :
        {made : List C} {calls : List Underway} {c : MmkvClient C} (resp : Response) (req : Request)
        (rest : List Request) (c' : MmkvClient C)
        → Ran made calls c
        → c.sent ≡ req ∷ rest
        → on_message double_of resp (record c { sent = rest }) ≡ some c'
        → Ran made calls c'

  -- the callbacks that were called, and then those that wait
  abbrev pub callbacks : MmkvClient C → List C
  callbacks c = map (λ f. f.0) c.finished ++ map (λ w. w.1) c.cbq

  record Counted (made : List C) (calls : List Underway) (c : MmkvClient C) : Type 0 where
    order : callbacks c ≡ made
    enough : length c.sent + length c.pending_requestq + length calls ≤ length c.cbq

  -- A response takes the call that waits longest.
  record Taken (resp : Response) (c : MmkvClient C) : Type 0 where
    left : MmkvClient C
    takes : on_message double_of resp c ≡ some left
    same : callbacks left ≡ callbacks c
    sent_same : left.sent ≡ c.sent
    pending_same : left.pending_requestq ≡ c.pending_requestq
    fewer : length left.cbq + 1 ≡ length c.cbq

  on_message-Taken :
      (resp : Response) (c : MmkvClient C) (q : List (MmkvValue × C))
      → c.cbq ≡ q
      → 1 ≤ length q
      → Taken resp c
  unfolding on_message
  on_message-Taken resp c [] e some_wait = absurd (omega arith)
  on_message-Taken resp c ((value, cb) ∷ rest) e some_wait =
      let done : List (C × MmkvValue) = (cb, from_response double_of resp value) ∷ [] in
      record {
        left = record c { cbq = rest; finished = c.finished ++ done };
        takes = rw (e, on_message) refl;
        same =
            ap (λ xs. xs ++ map (λ w. w.1) rest) (map-append (λ f. f.0) c.finished done)
            ∙ append_assoc (map (λ f. f.0) c.finished) (cb ∷ []) (map (λ w. w.1) rest)
            ∙ ap (λ q. map (λ f. f.0) c.finished ++ map (λ w. w.1) q) (sym e);
        sent_same = refl;
        pending_same = refl;
        fewer = rw e (omega arith);
      }

  send_by-Counted :
      (made : List C) (before after : List Underway) (req : Request) (seen : Bool)
      (c : MmkvClient C)
      → Counted made (before ++ (req, some seen) ∷ after) c
      → Counted made (before ++ after) (send_by seen req c)
  send_by-Counted made before after req true c m = record {
    order = m.order;
    enough = omega (
      arith,
      m.enough,
      length-middle before after (req, some true),
      length-append c.sent (req ∷ []),
    );
  }
  send_by-Counted made before after req false c m = record {
    order = m.order;
    enough = omega (
      arith,
      m.enough,
      length-middle before after (req, some false),
      length-append c.pending_requestq (req ∷ []),
    );
  }

  Ran-Counted :
      (made : List C) (calls : List Underway) (c : MmkvClient C)
      → Ran made calls c
      → Counted made calls c
  unfolding push_call on_connected
  Ran-Counted _ _ _ fresh = record { order = refl; enough = omega arith }
  Ran-Counted _ _ _ (puts {made} {calls} {c} garbage req cb r) =
      let m = Ran-Counted made calls c r in
      let w = (new_value garbage, cb) ∷ [] in
      record {
        order =
            ap (λ xs. map (λ f. f.0) c.finished ++ xs) (map-append (λ w. w.1) c.cbq w)
            ∙ sym (append_assoc (map (λ f. f.0) c.finished) (map (λ w. w.1) c.cbq) (cb ∷ []))
            ∙ ap (λ xs. xs ++ cb ∷ []) m.order;
        enough =
            omega (arith, m.enough, length-append calls ((req, none) ∷ []), length-append c.cbq w);
      }
  Ran-Counted _ _ _ (looks {made} {c} before after req r) =
      let m = Ran-Counted made (before ++ (req, none) ∷ after) c r in
      record {
        order = m.order;
        enough = omega (
          arith,
          m.enough,
          length-middle before after (req, none),
          length-middle before after (req, some c.connected),
        );
      }
  Ran-Counted _ _ _ (sends {made} {c} before after req seen r) =
      send_by-Counted made before after req seen c
        (Ran-Counted made (before ++ (req, some seen) ∷ after) c r)
  Ran-Counted _ _ _ (drops {made} {c} before after req r) =
      let m = Ran-Counted made (before ++ (req, some true) ∷ after) c r in
      record {
        order = m.order;
        enough = omega (arith, m.enough, length-middle before after (req, some true));
      }
  Ran-Counted _ _ _ (opens {made} {calls} {c} r) =
      let m = Ran-Counted made calls c r in record { order = m.order; enough = m.enough }
  Ran-Counted _ _ _ (flushes {made} {calls} {c} r) =
      let m = Ran-Counted made calls c r in
      record {
        order = m.order;
        enough = omega (arith, m.enough, length-append c.sent c.pending_requestq);
      }
  Ran-Counted _ _ _ (loses {made} {calls} {c} r) =
      let m = Ran-Counted made calls c r in
      record { order = m.order; enough = omega (arith, m.enough) }
  Ran-Counted _ _ _ (answers {made} {calls} {c} resp req rest c' r e run) =
      let m = Ran-Counted made calls c r in
      let size : length c.sent ≡ length rest + 1 = ap length e ∙ omega arith in
      let t =
        on_message-Taken resp (record c { sent = rest }) c.cbq refl
          (omega (arith, m.enough, size)) in
      subst (Counted made calls) (some-injective _ _ (sym t.takes ∙ run)) (record {
        order = t.same ∙ m.order;
        enough =
            omega (arith, m.enough, size, ap length t.sent_same, ap length t.pending_same, t.fewer);
      })

  -- However the calls of several threads are interleaved with each other, with the connection
  -- callback and with responses, and however often the connection is lost and made again, if each
  -- response is to a request that was sent: the callbacks that were called and then those that
  -- wait are in the order in which the calls queued them, and the message callback finds one that
  -- waits for the next response, never an empty queue.
  pub Ran-on_message :
      (made : List C) (calls : List Underway) (c : MmkvClient C) (resp : Response) (req : Request)
      (rest : List Request)
      → Ran made calls c
      → c.sent ≡ req ∷ rest
      → (callbacks c ≡ made)
        × ((c' : MmkvClient C) × (on_message double_of resp (record c { sent = rest }) ≡ some c')
            × (callbacks c' ≡ made)
            × (length c'.cbq + 1 ≡ length c.cbq))
  Ran-on_message made calls c resp req rest r e =
      let m = Ran-Counted made calls c r in
      let size : length c.sent ≡ length rest + 1 = ap length e ∙ omega arith in
      let t =
        on_message-Taken resp (record c { sent = rest }) c.cbq refl
          (omega (arith, m.enough, size)) in
      (m.order, (t.left, t.takes, t.same ∙ m.order, t.fewer))
