-- ===== src/Protocol/Request/View.antt =====
-- What a request says, apart from how the object stores it: the fields that its bits announce.
use mmkvc.Prelude.{ℕ, ◌≡◌, refl, if◌then◌else◌, List, [], ◌++◌, Option, none, some, arith}
use mmkvc.External.Varint.{Varint}
use mmkvc.External.ByteBuffer.{ByteBuffer}
use mmkvc.Protocol.Types.{Str, StrValues, StrKvs, WeightValues}
use mmkvc.Protocol.Parser.{ok}
use mmkvc.Protocol.Component.RoundTrip.{values_fresh, kvs_fresh, weights_fresh}
use mmkvc.Protocol.Request.{
  Request, has_key, has_value, has_expire_time, has_values, has_kvs, has_count, has_range,
  has_vmembers, count, set_count_field, serialize_to, parse_from, reset,
}
use mmkvc.Protocol.Request.Image.{IsSendable, receive}
use mmkvc.Protocol.Request.RoundTrip.{parse_from-serialize_to}

pub data Payload : Type 0 where
  one_value : Str → Payload
  many_values : StrValues → Payload
  key_values : StrKvs → Payload
  counted : ℕ → Payload
  ranged : ℕ → ℕ → Payload
  weighted : WeightValues → Payload
  nothing : Payload

unfoldable pub payload : Request → Payload
payload r =
    if has_value r
    then one_value r.value
    else if has_values r
    then many_values r.values
    else if has_kvs r
    then key_values r.kvs
    else if has_count r
    then counted (count r)
    else if has_range r
    then ranged r.union_left r.union_right
    else if has_vmembers r
    then weighted r.vmembers
    else nothing

pub record View : Type 0 where
  pub command : ℕ
  pub has_bits : ℕ
  pub key : Option Str
  pub payload : Payload
  pub expire_time : Option ℕ

unfoldable pub view : Request → View
unfolding payload
view r = record {
  command = r.command;
  has_bits = r.has_bits;
  key = if has_key r then some r.key else none;
  payload = payload r;
  expire_time = if has_expire_time r then some r.expire_time else none;
}

-- The vectors of an object that is new or has been reset are empty.
pub record IsFresh (r : Request) : Type 0 where
  pub no_values : r.values ≡ []
  pub no_kvs : r.kvs ≡ []
  pub no_vmembers : r.vmembers ≡ []

pub reset-IsFresh : (r : Request) → IsFresh (reset r)
unfolding reset
reset-IsFresh r = record { no_values = refl; no_kvs = refl; no_vmembers = refl }

pub view-receive : (old sent : Request) → IsFresh old → view (receive old sent) ≡ view sent
unfolding view receive set_count_field
view-receive old sent fresh = ground (
  arith,
  values_fresh old.values sent.values fresh.no_values,
  kvs_fresh old.kvs sent.kvs fresh.no_kvs,
  weights_fresh old.vmembers sent.vmembers fresh.no_vmembers,
)

module _ ⦃kv : Varint⦄ ⦃kb : ByteBuffer⦄ where
  open kb use {Buffer, readable, empty}

  -- A request object that is new or was reset and that parses the bytes of a sendable request,
  -- whatever follows them, succeeds, then has the same view (command, bits, key, announced payload
  -- and expiration) as the request that was sent, and leaves exactly what follows.
  pub request_round_trip :
      (old sent : Request) (b : Buffer) (rest : List ℕ)
      → IsFresh old
      → IsSendable sent
      → readable b ≡ readable (serialize_to sent empty) ++ rest
      → (r : Request) × (b' : Buffer) × (parse_from old b ≡ ok (r, b'))
        × (view r ≡ view sent)
        × (readable b' ≡ rest)
  request_round_trip old sent b rest fresh fit e =
      let (b', run, left) = parse_from-serialize_to old sent b rest fit e in
      (receive old sent, b', run, view-receive old sent fresh, left)
