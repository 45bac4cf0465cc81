-- ===== src/Protocol/Codec/Frame.antt =====
-- The bytes of a frame.
use mmkvc.Prelude.{ℕ, ◌+◌, ◌%◌, ◌^◌, ◌<◌, ◌≡◌, ◌∙◌, ap, List, ◌++◌, length, length-append, arith}
use mmkvc.External.Varint.{Varint}
use mmkvc.External.ByteBuffer.{ByteBuffer}
use mmkvc.External.Checksum.{Checksum}
use mmkvc.Protocol.Codec.{mmbp_tag, min_size, send}

-- the part that the checksum covers
abbrev pub tagged : List ℕ → List ℕ
tagged payload = mmbp_tag ++ payload

module _ ⦃kv : Varint⦄ ⦃kb : ByteBuffer⦄ ⦃ck : Checksum⦄ where
  open kv use {encode}
  open kb use {
    Buffer, append, readable, bytes32, empty, chunks, readable-empty, readable-append,
    readable-prepend, flatten-chunks, length-bytes32,
  }
  open ck use {xxh32, digest-update}

  abbrev pub checksum : List ℕ → List ℕ
  checksum payload = bytes32 (xxh32 (tagged payload))

  unfoldable pub frame : List ℕ → List ℕ
  frame payload = encode 32 (length payload + min_size) ++ (tagged payload ++ checksum payload)

  -- `message` adds `payload` to whatever buffer it is given.
  abbrev pub Writes : (Buffer → Buffer) → List ℕ → Type 0
  Writes message payload = (b : Buffer) → readable (message b) ≡ readable b ++ payload

  -- What `send` puts on the connection for a message that writes `payload`, of less than 2 ^ 32
  -- bytes with tag and checksum, is exactly the frame of that payload: the size, the tag, the
  -- payload and the hash of tag and payload.
  pub readable-send :
      (message : Buffer → Buffer) (payload : List ℕ)
      → Writes message payload
      → length payload + min_size < 2 ^ 32
      → readable (send message) ≡ frame payload
  unfolding send frame
  readable-send message payload writes small =
      let body : readable (message (append mmbp_tag empty)) ≡ tagged payload =
        writes _
        ∙ ap (λ l. l ++ payload)
            (readable-append mmbp_tag empty ∙ ap (λ l. l ++ mmbp_tag) readable-empty) in
      let hash = digest-update (chunks (message (append mmbp_tag empty))) in
      let size : length (tagged payload ++ checksum payload) % 2 ^ 32 ≡ length payload + min_size =
        omega (
          arith,
          length-append payload (checksum payload),
          length-bytes32 (xxh32 (tagged payload)),
        ) in
      simp (readable-prepend, readable-append, hash, flatten-chunks, body)
        (ap (λ n. encode 32 n ++ (tagged payload ++ checksum payload)) size)
