-- ===== src/Tests/Framing.antt =====
-- Frames at concrete inputs.
use mmkvc.Prelude.{
  ℕ, suc, ◌<◌, ◌≡◌, ◌≢◌, refl, List, [], ◌∷◌, ◌++◌, length, take, drop, map, some, arith,
}
use mmkvc.Protocol.Codec.{
  Event, stop, delivered, error, invalid_size_header, send, turn, check_header, open_frame, on_read,
  max_size,
}
use mmkvc.Protocol.Codec.Frame.{frame, readable-send}
use mmkvc.Protocol.Codec.Deliver.{Consumes-Takes, turn_prefix}
use mmkvc.Protocol.Codec.Sound.{StartsWithFrame, turn-StartsWithFrame}
use mmkvc.Protocol.Codec.Stream.{on_read_total, frames, shown, Waits, on_read-frames}
use mmkvc.Protocol.Codec.ErrorReply.{error_reply, turn-error_reply}
use mmkvc.Tests.Leb128.{leb128, leb_encode, leb_decode}
use mmkvc.Tests.Memory.{list_buffer, mixing, big_endian, from_bytes, mix_all}

-- all that a run of the codec computes with
run_codec : Unit {0}
unfolding frame frames shown turn check_header open_frame on_read leb_encode leb_decode big_endian
    from_bytes mix_all
run_codec = tt

abbrev skip : List ℕ → ℕ → List ℕ
skip b n = drop n b

abbrev hi : List ℕ
hi = b'h' ∷ b'i' ∷ []

abbrev hi_frame : List ℕ
hi_frame = frame hi

readable-send_example : send (λ b. b ++ hi) ≡ frame hi
readable-send_example = readable-send (λ b. b ++ hi) hi (λ b. refl) (omega arith)

frame-ne-nil : frame [] ≢ []
unfolding run_codec
frame-ne-nil = cc

nil-Waits : Waits []
nil-Waits = record {
  payload = [];
  back = frame [];
  frameable = omega arith;
  cut = refl;
  more = frame-ne-nil;
}

two_frames-lt : length (frames (hi ∷ [] ∷ []) ++ []) < max_size
unfolding run_codec
two_frames-lt = omega arith

on_read-frames_example :
    (es : List (Event (List ℕ))) × (left : List ℕ) × (on_read skip 3 (frames (hi ∷ [] ∷ []) ++ [])
      ≡ some (es, left))
    × (map shown es ≡ map some (hi ∷ [] ∷ []))
    × (left ≡ [])
on_read-frames_example =
    on_read-frames skip (hi ∷ [] ∷ []) [] 3 (frames (hi ∷ [] ∷ []) ++ [])
      (
        omega arith,
        Consumes-Takes skip hi (λ b n h. refl),
        (omega arith, Consumes-Takes skip [] (λ b n h. refl), tt),
      )
      nil-Waits (omega arith) refl two_frames-lt

hi_delivered : turn skip hi_frame ≡ delivered (drop 5 hi_frame) 2 (drop 11 hi_frame)
unfolding run_codec
hi_delivered = refl

turn-StartsWithFrame_example :
    (len size : ℕ) × StartsWithFrame hi_frame 2 len size
    × (drop 5 hi_frame ≡ drop 4 (drop len hi_frame))
    × (drop 11 hi_frame ≡ drop 4 (skip (drop 5 hi_frame) 2))
turn-StartsWithFrame_example =
    turn-StartsWithFrame skip hi_frame (drop 5 hi_frame) (drop 11 hi_frame) 2 hi_delivered

on_read_total_example :
    (r : List (Event (List ℕ)) × List ℕ) × (on_read skip (suc (length hi_frame)) hi_frame ≡ some r)
on_read_total_example = on_read_total skip hi_frame (λ b n h. refl)

hi_cut : frame hi ≡ take 7 hi_frame ++ drop 7 hi_frame
unfolding run_codec
hi_cut = refl

hi_rest-ne-nil : drop 7 hi_frame ≢ []
unfolding run_codec
hi_rest-ne-nil = cc

turn_prefix_example : turn skip (take 7 hi_frame) ≡ stop [] (take 7 hi_frame)
turn_prefix_example =
    turn_prefix skip hi (take 7 hi_frame) (drop 7 hi_frame) (take 7 hi_frame) (omega arith) hi_cut
      hi_rest-ne-nil refl

turn-error_reply_example :
    turn skip (error_reply 0 ++ []) ≡ stop (error invalid_size_header ∷ []) (error_reply 0 ++ [])
turn-error_reply_example = turn-error_reply skip 0 (error_reply 0 ++ []) [] refl
