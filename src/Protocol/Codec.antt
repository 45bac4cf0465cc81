-- ===== src/Protocol/Codec.antt =====
-- `MmbpCodec` of mmkv/protocol/mmbp_codec.h and mmbp_codec.cc: frames around messages, and the
-- message callback that `SetUpConnection` installs. A frame is the size in a varint, then the tag,
-- the message and the checksum of tag and message.
pub mod Frame
pub mod Deliver
pub mod Sound
pub mod ErrorReply
pub mod Stream
use mmkvc.Prelude.{
  ℕ, zero, suc, ◌+◌, ◌-◌, ◌%◌, ◌^◌, Bool, if◌then◌else◌, not, ltb, leb, ◌==◌, ◌||◌, List, [], ◌∷◌,
  length, take, drop, foldl, Option, none, some, bytes_eq,
}
use mmkvc.External.Varint.{Varint, decoded, buf_invalid, buf_short}
use mmkvc.External.ByteBuffer.{ByteBuffer}
use mmkvc.External.Checksum.{Checksum}

pub data ErrorCode : Type 0 where
  no_error invalid_size_header invalid_checksum invalid_message no_complete_message : ErrorCode

abbrev pub checksum_length : ℕ
checksum_length = 4

-- 64MB
abbrev pub max_size : ℕ
max_size = 2 ^ 26

abbrev pub mmbp_tag : List ℕ
mmbp_tag = b'M' ∷ b'M' ∷ b'B' ∷ b'P' ∷ []

abbrev pub mmbp_tag_size : ℕ
mmbp_tag_size = 4

abbrev pub min_size : ℕ
min_size = mmbp_tag_size + checksum_length

-- What the codec calls: `error_cb_(conn, code)`, or `message_cb_(conn, buffer, size, time)` with the
-- buffer as it then stands.
pub data Event (B : Type 0) : Type 0 where
  error : ErrorCode → Event B
  received : B → ℕ → Event B

-- One turn of the loop. It stops with at most one error and the buffer that is left, or it hands a
-- message over and goes on with the buffer that the callback leaves, past the checksum.
pub data Turn (B : Type 0) : Type 0 where
  stop : List (Event B) → B → Turn B
  delivered : B → ℕ → B → Turn B

module _ ⦃kv : Varint⦄ ⦃kb : ByteBuffer⦄ ⦃ck : Checksum⦄ where
  open kv use {encode, decode}
  open kb use {
    Buffer, readable, chunks, advance_read, advance_all, shrink, append, prepend, bytes32, word32,
    empty,
  }
  open ck use {xxh32, reset, update, digest}

  -- `SerializeTo(message, buffer)`, with the message's own `SerializeTo`
  unfoldable pub serialize_to : (Buffer → Buffer) → Buffer → Buffer
  serialize_to message buffer =
      let body = message (append mmbp_tag buffer) in
      let checksum = digest (foldl update reset (chunks body)) in
      let summed = append (bytes32 checksum) body in
      prepend (encode 32 (length (readable summed) % 2 ^ 32)) summed

  -- what `Send` puts on the connection
  unfoldable pub send : (Buffer → Buffer) → Buffer
  unfolding serialize_to
  send message = serialize_to message empty

  unfoldable pub verify_check_sum : Buffer → ℕ → Bool
  verify_check_sum buffer size_header =
      xxh32 (take (size_header - checksum_length) (readable buffer))
      == word32 (take checksum_length (drop (size_header - checksum_length) (readable buffer)))

  -- the checks on a whole frame, once the size header is off the buffer
  unfoldable pub open_frame : (Buffer → ℕ → Buffer) → ℕ → Buffer → Turn Buffer
  unfolding verify_check_sum
  open_frame message_cb size_header buffer =
      if not (verify_check_sum buffer size_header)
      then stop (error invalid_checksum ∷ []) buffer
      else if not (bytes_eq (take mmbp_tag_size (readable buffer)) mmbp_tag)
      then stop (error invalid_message ∷ []) buffer
      else (let untagged = advance_read mmbp_tag_size buffer in
          let size = size_header - mmbp_tag_size - checksum_length in
          delivered untagged size (advance_read 4 (message_cb untagged size)))

  -- the tests on a decoded size header
  unfoldable pub check_header : (Buffer → ℕ → Buffer) → ℕ → ℕ → Buffer → Turn Buffer
  check_header message_cb size_header_len size_header buffer =
      if ltb size_header min_size || leb (max_size - size_header_len) size_header
      then stop (error invalid_size_header ∷ []) buffer
      else if ltb (length (readable buffer) - size_header_len) size_header
      then stop [] buffer
      else open_frame message_cb size_header (advance_read size_header_len buffer)

  -- the body of `while (true)`
  unfoldable pub turn : (Buffer → ℕ → Buffer) → Buffer → Turn Buffer
  turn message_cb buffer = elim (decode 32 (readable buffer)) [
    | buf_invalid ↦ stop (error invalid_message ∷ []) buffer
    | buf_short ↦ stop [] buffer
    | decoded size_header_len size_header ↦
        check_header message_cb size_header_len size_header buffer
  ]

  -- `while (true)` on fuel; `none` means that the fuel ran out
  unfoldable pub turns : (Buffer → ℕ → Buffer) → ℕ → Buffer → Option (List (Event Buffer) × Buffer)
  unfolding turn
  turns message_cb zero buffer = none
  turns message_cb (suc fuel) buffer = elim (turn message_cb buffer) [
    | stop events left ↦ some (events, left)
    | delivered at size next ↦ elim (turns message_cb fuel next) [
      | none ↦ none
      | some (events, left) ↦ some (received at size ∷ events, left)
    ]
  ]

  -- the callback that `SetUpConnection` gives to the connection
  unfoldable pub on_read :
      (Buffer → ℕ → Buffer) → ℕ → Buffer → Option (List (Event Buffer) × Buffer)
  unfolding turns
  on_read message_cb fuel buffer =
      if leb max_size (length (readable buffer))
      then some (error invalid_size_header ∷ [], shrink (advance_all buffer))
      else turns message_cb fuel buffer
