-- ===== src/Protocol/Component.antt =====
-- mmkv/protocol/mmbp_util.h: `SerializeComponent` and `ParseComponent` for each type of field, in
-- both directions over a buffer.
mod Serialize
mod Parse
mod Image
pub mod RoundTrip
pub mod Limits
unfoldable pub use Serialize.*
unfoldable pub use Parse.*
unfoldable pub use Image.*
