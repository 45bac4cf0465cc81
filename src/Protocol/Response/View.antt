-- ===== src/Protocol/Response/View.antt =====
-- What a response says, apart from how the object stores it: the status and the announced field.
use mmkvc.Prelude.{ℕ, ◌≡◌, refl, if◌then◌else◌, List, [], ◌++◌, arith}
use mmkvc.External.Varint.{Varint}
use mmkvc.External.ByteBuffer.{ByteBuffer}
use mmkvc.Protocol.Types.{Str, StrValues, StrKvs, WeightValues}
use mmkvc.Protocol.Parser.{ok}
use mmkvc.Protocol.Component.RoundTrip.{values_fresh, kvs_fresh, weights_fresh}
use mmkvc.Protocol.Response.{
  Response, has_value, has_values, has_kvs, has_count, has_vmembers, serialize_to, parse_from,
  new_response,
}
use mmkvc.Protocol.Response.Image.{IsSendable, receive}
use mmkvc.Protocol.Response.RoundTrip.{parse_from-serialize_to}

pub data Payload : Type 0 where
  one_value : Str → Payload
  many_values : StrValues → Payload
  key_values : StrKvs → Payload
  counted : ℕ → Payload
  weighted : WeightValues → Payload
  nothing : Payload

pub record View : Type 0 where
  pub status_code : ℕ
  pub has_bits : ℕ
  pub payload : Payload

unfoldable pub payload : Response → Payload
payload r =
    if has_value r
    then one_value r.value
    else if has_values r
    then many_values r.values
    else if has_kvs r
    then key_values r.kvs
    else if has_count r
    then counted r.count
    else if has_vmembers r
    then weighted r.vmembers
    else nothing

unfoldable pub view : Response → View
unfolding payload
view r = record { status_code = r.status_code; has_bits = r.has_bits; payload = payload r }

-- The vectors of an object that is new are empty.
pub record IsFresh (r : Response) : Type 0 where
  pub no_values : r.values ≡ []
  pub no_kvs : r.kvs ≡ []
  pub no_vmembers : r.vmembers ≡ []

pub new_response-IsFresh : (count : ℕ) → IsFresh (new_response count)
unfolding new_response
new_response-IsFresh count = record { no_values = refl; no_kvs = refl; no_vmembers = refl }

pub view-receive : (old sent : Response) → IsFresh old → view (receive old sent) ≡ view sent
unfolding view receive
view-receive old sent fresh = ground (
  arith,
  values_fresh old.values sent.values fresh.no_values,
  kvs_fresh old.kvs sent.kvs fresh.no_kvs,
  weights_fresh old.vmembers sent.vmembers fresh.no_vmembers,
)

module _ ⦃kv : Varint⦄ ⦃kb : ByteBuffer⦄ where
  open kb use {Buffer, readable, empty}

  -- A response object with empty vectors that parses the bytes of a sendable response, whatever
  -- follows them, succeeds, then has the same view (status code, bits and announced field) as the
  -- response that was sent, and leaves exactly what follows.
  pub response_round_trip :
      (old sent : Response) (b : Buffer) (rest : List ℕ)
      → IsFresh old
      → IsSendable sent
      → readable b ≡ readable (serialize_to sent empty) ++ rest
      → (r : Response) × (b' : Buffer) × (parse_from old b ≡ ok (r, b'))
        × (view r ≡ view sent)
        × (readable b' ≡ rest)
  response_round_trip old sent b rest fresh fit e =
      let (b', run, left) = parse_from-serialize_to old sent b rest fit e in
      (receive old sent, b', run, view-receive old sent fresh, left)
