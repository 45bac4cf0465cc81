-- ===== src/Tests/Messages.antt =====
-- Requests and responses at concrete inputs.
use mmkvc.Prelude.{
  ℕ, ◌%◌, ◌^◌, ◌≡◌, refl, true, List, [], ◌∷◌, ◌++◌, length, take, drop, replicate, arith,
}
use mmkvc.Protocol.Types.{Str}
use mmkvc.Protocol.Parser.{ok}
use mmkvc.Protocol.HasBits.{test_bit}
use mmkvc.Protocol.Component.{serialize_string, parse_string, string_bits, resize}
use mmkvc.Protocol.Component.Limits.{parse_string-serialize_string}
use mmkvc.Protocol.Request
use mmkvc.Protocol.Request.{Request, new_request, reset}
use mmkvc.Protocol.Request.Image.{receive}
use mmkvc.Protocol.Request.View.{reset-IsFresh, request_round_trip}
use mmkvc.Protocol.Response
use mmkvc.Protocol.Response.{Response, new_response}
use mmkvc.Protocol.Response.View.{new_response-IsFresh, response_round_trip}
use mmkvc.Tests.Leb128.{leb128}
use mmkvc.Tests.Memory.{list_buffer}

-- STR_ADD of "k" with the value "v1", to expire at 77
abbrev add_str : Request
add_str = record {
  has_bits = 7;
  command = 0;
  key = b'k' ∷ [];
  kvs = [];
  values = [];
  value = b'v' ∷ b'1' ∷ [];
  vmembers = [];
  expire_time = 77;
  union_left = 0;
  union_right = 0;
}

-- an object that still holds an earlier request
abbrev used : Request
used = record add_str { has_bits = 9; values = (b'a' ∷ []) ∷ [] }

-- MADD with two fields
abbrev add_map : Request
add_map = record add_str {
  has_bits = 17;
  command = 30;
  kvs = record { key = b'a' ∷ []; value = b'x' ∷ [] } ∷ record { key = b'b' ∷ []; value = [] } ∷ [];
}

request_round_trip_example :
    (r : Request) × (b' : List ℕ) × (Request.parse_from
        (reset used)
        (Request.serialize_to add_map [] ++ 9 ∷ [])
      ≡ ok (r, b'))
    × (Request.View.view r ≡ Request.View.view add_map)
    × (b' ≡ 9 ∷ [])
request_round_trip_example =
    request_round_trip (reset used) add_map (Request.serialize_to add_map [] ++ 9 ∷ []) (9 ∷ [])
      (reset-IsFresh used) (omega arith) refl

abbrev append_list : Request
append_list = record used { values = (b'b' ∷ []) ∷ (b'c' ∷ []) ∷ [] }

-- the element that was there is kept in front of the first new one
receive-used : (receive used append_list).values ≡ (b'a' ∷ b'b' ∷ []) ∷ (b'c' ∷ []) ∷ []
unfolding receive test_bit resize
receive-used = refl

abbrev counted : Response
counted = record {
  has_bits = 8;
  status_code = 0;
  count = 3;
  value = [];
  values = [];
  kvs = [];
  vmembers = [];
}

response_round_trip_example :
    (r : Response) × (b' : List ℕ) × (Response.parse_from
        (new_response 5)
        (Response.serialize_to counted [] ++ [])
      ≡ ok (r, b'))
    × (Response.View.view r ≡ Response.View.view counted)
    × (b' ≡ [])
response_round_trip_example =
    response_round_trip (new_response 5) counted (Response.serialize_to counted [] ++ []) []
      (new_response-IsFresh 5) (omega arith) refl

-- a string of one byte, over and over
abbrev long : ℕ → Str
long n = replicate n b'x'

parse_string-serialize_string_example :
    (b' : List ℕ) × (parse_string true (serialize_string true (long 300) [] ++ [])
      ≡ ok (take (length (long 300) % 2 ^ string_bits true) (long 300), b'))
    × (b' ≡ drop (length (long 300) % 2 ^ string_bits true) (long 300) ++ [])
parse_string-serialize_string_example =
    parse_string-serialize_string true (long 300) (serialize_string true (long 300) [] ++ []) []
      refl
