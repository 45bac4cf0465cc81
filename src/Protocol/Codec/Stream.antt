-- ===== src/Protocol/Codec/Stream.antt =====
-- The whole loop: it ends, and a stream of frames is delivered message by message.
use mmkvc.Prelude.{
  ℕ, zero, suc, ◌-◌, ◌<◌, ◌≡◌, ◌≢◌, refl, ◌∙◌, ap, false, List, [], ◌∷◌, ◌++◌, length, take, drop,
  length-drop, append_assoc, take-append, Option, none, some, leb, map, Bool-cases, inl, inr, arith,
}
use mathlib.Core.Path.{ap₂}
use mmkvc.External.Varint.{Varint}
use mmkvc.External.ByteBuffer.{ByteBuffer}
use mmkvc.External.Checksum.{Checksum}
use mmkvc.Protocol.Codec.{
  max_size, Turn, Event, stop, delivered, error, invalid_size_header, received, turn, turns,
  on_read,
}
use mmkvc.Protocol.Codec.Frame.{frame}
use mmkvc.Protocol.Codec.Deliver.{Consumes, Takes, IsFrameable, turn-frame, turn_prefix}
use mmkvc.Protocol.Codec.Sound.{turn-StartsWithFrame}

module _ ⦃kv : Varint⦄ ⦃kb : ByteBuffer⦄ ⦃ck : Checksum⦄ where
  open kv use {decode, decode_bounds}
  open kb use {Buffer, readable, advance_read, advance_all, shrink, readable-advance_read}

  -- every turn that goes on leaves fewer bytes
  delivered_shrinks :
      (cb : Buffer → ℕ → Buffer) (b at next : Buffer) (n : ℕ)
      → Consumes cb
      → turn cb b ≡ delivered at n next
      → length (readable next) < length (readable b)
  delivered_shrinks cb b at next n consumes e =
      let (len, size, s, here, left) = turn-StartsWithFrame cb b at next n e in
      let total = length (readable b) in
      let bounds = s.whole in
      let large = s.large_enough in
      let count = s.payload_size in
      let at_size : length (readable at) ≡ total - len - 4 =
        rw here (
          length-drop 4 (drop len (readable b)) ∙ ap (λ k. k - 4) (length-drop len (readable b))) in
      let after : length (readable (cb at n)) ≡ total - len - 4 - n =
        rw (consumes at n (omega arith)) (length-drop n (readable at) ∙ ap (λ k. k - n) at_size) in
      let last : length (readable (advance_read 4 (cb at n))) ≡ total - len - 4 - n - 4 =
        rw (readable-advance_read 4 (cb at n) (omega arith))
          (length-drop 4 (readable (cb at n)) ∙ ap (λ k. k - 4) after) in
      rw left (omega arith)

  -- the loop with a turn already made
  turns-stop :
      (cb : Buffer → ℕ → Buffer) (fuel : ℕ) (b left : Buffer) (es : List (Event Buffer))
      → turn cb b ≡ stop es left
      → turns cb (suc fuel) b ≡ some (es, left)
  unfolding turns
  turns-stop cb fuel b left es e = rw (turns, e)

  turns-delivered :
      (cb : Buffer → ℕ → Buffer) (fuel : ℕ) (b at next left : Buffer) (n : ℕ)
      (es : List (Event Buffer))
      → turn cb b ≡ delivered at n next
      → turns cb fuel next ≡ some (es, left)
      → turns cb (suc fuel) b ≡ some (received at n ∷ es, left)
  unfolding turns
  turns-delivered cb fuel b at next left n es e rest = rw (turns, e) (rw rest)

  -- With more fuel than readable bytes the loop ends.
  turns_total :
      (cb : Buffer → ℕ → Buffer) (fuel : ℕ) (b : Buffer)
      → Consumes cb
      → length (readable b) < fuel
      → (r : List (Event Buffer) × Buffer) × (turns cb fuel b ≡ some r)
  turns_total cb zero b consumes h = absurd (omega arith)
  turns_total cb (suc fuel) b consumes h =
      go (turn cb b) refl λ next less. turns_total cb fuel next consumes (omega arith)
    where
      go :
          (t : Turn Buffer)
          → turn cb b ≡ t
          → ((next : Buffer)
              → length (readable next) < length (readable b)
              → (r : List (Event Buffer) × Buffer) × (turns cb fuel next ≡ some r))
          → (r : List (Event Buffer) × Buffer) × (turns cb (suc fuel) b ≡ some r)
      go (stop es left) e more = ((es, left), turns-stop cb fuel b left es e)
      go (delivered at n next) e more =
          let ((es, left), run) = more next (delivered_shrinks cb b at next n consumes e) in
          ((received at n ∷ es, left), turns-delivered cb fuel b at next left n es e run)

  -- The read callback ends on every buffer, with as much fuel as there are readable bytes and one
  -- more, for every message callback that takes exactly its message off the buffer.
  pub on_read_total :
      (cb : Buffer → ℕ → Buffer) (b : Buffer)
      → Consumes cb
      → (r : List (Event Buffer) × Buffer) × (on_read cb (suc (length (readable b))) b ≡ some r)
  unfolding on_read
  on_read_total cb b consumes = elim (Bool-cases (leb max_size (length (readable b)))) [
    | inl large ↦ ((error invalid_size_header ∷ [], shrink (advance_all b)), rw large)
    | inr small ↦
        let (r, run) = turns_total cb (suc (length (readable b))) b consumes (omega arith) in
        (r, rw small run)
  ]

  -- the bytes that a delivered message shows to the callback
  unfoldable pub shown : Event Buffer → Option (List ℕ)
  shown (error code) = none
  shown (received at n) = some (take n (readable at))

  -- Each payload fits a frame, and the callback takes it off the buffer.
  abbrev pub AllTaken : (Buffer → ℕ → Buffer) → List (List ℕ) → Type 0
  AllTaken cb [] = Unit
  AllTaken cb (p ∷ ps) = IsFrameable p × Takes cb p × AllTaken cb ps

  unfoldable pub frames : List (List ℕ) → List ℕ
  frames [] = []
  frames (p ∷ ps) = frame p ++ frames ps

  -- A proper prefix of some frame, the empty one included.
  pub record Waits (tail : List ℕ) : Type 0 where
    pub payload : List ℕ
    pub back : List ℕ
    pub frameable : IsFrameable payload
    pub cut : frame payload ≡ tail ++ back
    pub more : back ≢ []

  turns-frames :
      (cb : Buffer → ℕ → Buffer) (ps : List (List ℕ)) (tail : List ℕ) (fuel : ℕ) (b : Buffer)
      → AllTaken cb ps
      → Waits tail
      → length ps < fuel
      → readable b ≡ frames ps ++ tail
      → (es : List (Event Buffer)) × (left : Buffer) × (turns cb fuel b ≡ some (es, left))
        × (map shown es ≡ map some ps)
        × (readable left ≡ tail)
  unfolding frames shown
  turns-frames cb ps tail zero b fit waits h e = absurd (omega arith)
  turns-frames cb [] tail (suc fuel) b fit waits h e = (
    [],
    b,
    turns-stop cb fuel b b []
        (turn_prefix cb waits.payload tail waits.back b waits.frameable waits.cut waits.more e),
    refl,
    e,
  )
  turns-frames cb (p ∷ ps) tail (suc fuel) b (small, taken, fit) waits h e =
      let (at, next, run, here, rest) =
        turn-frame cb p (frames ps ++ tail) b taken small
          (e ∙ append_assoc (frame p) (frames ps) tail) in
      let (es, left, more, seen, end) =
        turns-frames cb ps tail fuel next fit waits (omega arith) rest in
      (
        received at (length p) ∷ es,
        left,
        turns-delivered cb fuel b at next left (length p) es run more,
        ap₂ ◌∷◌ (ap some (rw here (take-append p _))) seen,
        end,
      )

  -- A read buffer below the size limit that holds whole frames, each small enough and each taken
  -- off by the message callback, and then a proper prefix of a frame: with more fuel than frames
  -- the callback is shown exactly the payloads, in order, no error is reported, and the prefix
  -- stays in the buffer for the next read.
  pub on_read-frames :
      (cb : Buffer → ℕ → Buffer) (ps : List (List ℕ)) (tail : List ℕ) (fuel : ℕ) (b : Buffer)
      → AllTaken cb ps
      → Waits tail
      → length ps < fuel
      → readable b ≡ frames ps ++ tail
      → length (readable b) < max_size
      → (es : List (Event Buffer)) × (left : Buffer) × (on_read cb fuel b ≡ some (es, left))
        × (map shown es ≡ map some ps)
        × (readable left ≡ tail)
  unfolding on_read
  on_read-frames cb ps tail fuel b fit waits h e small =
      let fits : leb max_size (length (readable b)) ≡ false = ground arith in
      rw fits (turns-frames cb ps tail fuel b fit waits h e)
