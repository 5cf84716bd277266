-- ===== src/Martian/MessageHeader.antt =====
-- internal/martian/proxyutil/header.go: the headers of a request or a response together with the three
-- fields that net/http keeps outside of them. The six closures are the fields and `is_request`.
pub mod View
use forwarder.Base.{
  zero, suc, ℕ, Bool, true, false, Option, none, some, List, [], ◌∷◌, ◌++◌, Bytes, codes, beq,
  Result, ok, err, if◌then◌else◌,
}
use forwarder.Base.Decimal.{atoi, itoa}
use forwarder.Base.Int.{ℤ, pos, negsuc}
use forwarder.Http.Headers.{Headers, values, get, put, set_header, add_header, del}
use forwarder.Http.Text.{canonical}

pub record MessageHeader : Type 0 where
  pub h : Headers
  pub host : Bytes
  pub content_length : ℤ
  pub transfer_encoding : Option (List Bytes)
  pub is_request : Bool

pub data HeaderError : Type 0 where
  bad_number : Bytes → HeaderError
  illegal_multiple : Bytes → HeaderError

abbrev pub host_name : Bytes
host_name = codes "Host"

abbrev pub content_length_name : Bytes
content_length_name = codes "Content-Length"

abbrev pub transfer_encoding_name : Bytes
transfer_encoding_name = codes "Transfer-Encoding"

-- The cases of the `switch` on the canonical name.
pub data Place : Type 0 where
  in_host : Place
  in_length : Place
  in_encoding : Place
  in_map : Place

unfoldable pub place_of : Bytes → Place
place_of k =
    if beq k host_name
    then in_host
    else if beq k content_length_name
    then in_length
    else if beq k transfer_encoding_name
    then in_encoding
    else in_map

-- The closures `host` and `setHost`; a response has none.
abbrev pub host_of : MessageHeader → Bytes
host_of m = if m.is_request then m.host else []

abbrev pub set_host : Bytes → MessageHeader → MessageHeader
set_host v m = if m.is_request then record m { host = v } else m

abbrev pub or_empty : Option (List Bytes) → List Bytes
or_empty none = []
or_empty (some vs) = vs

abbrev pub set_at : Place → Bytes → Bytes → MessageHeader → Result HeaderError MessageHeader
set_at in_host name value m = ok (set_host value m)
set_at in_length name value m = elim (atoi value) [
  | none ↦ err (bad_number value)
  | some n ↦ ok (record m { content_length = n })
]
set_at in_encoding name value m = ok (record m { transfer_encoding = some (value ∷ []) })
set_at in_map name value m = ok (record m { h = set_header name value m.h })

-- `Set`
pub set : Bytes → Bytes → MessageHeader → Result HeaderError MessageHeader
set name value m = set_at (place_of (canonical name)) name value m

-- `cl() > 0`
abbrev pub is_positive : ℤ → Bool
is_positive (pos zero) = false
is_positive (pos (suc n)) = true
is_positive (negsuc n) = false

abbrev pub add_at : Place → Bytes → Bytes → MessageHeader → Result HeaderError MessageHeader
add_at in_host name value m =
    if beq (host_of m) [] then set name value m else err (illegal_multiple host_name)
add_at in_length name value m =
    if is_positive m.content_length
    then err (illegal_multiple content_length_name)
    else set name value m
add_at in_encoding name value m =
    ok (record m { transfer_encoding = some (or_empty m.transfer_encoding ++ (value ∷ [])) })
add_at in_map name value m = ok (record m { h = add_header name value m.h })

-- `Add`
pub add_value : Bytes → Bytes → MessageHeader → Result HeaderError MessageHeader
add_value name value m = add_at (place_of (canonical name)) name value m

abbrev pub length_text : ℤ → Bytes
length_text (pos n) = itoa n
length_text (negsuc n) = []

abbrev pub first_encoding : List Bytes → Bytes
first_encoding [] = []
first_encoding (v ∷ vs) = v

abbrev pub get_at : Place → Bytes → MessageHeader → Bytes
get_at in_host name m = host_of m
get_at in_length name m = length_text m.content_length
get_at in_encoding name m = first_encoding (or_empty m.transfer_encoding)
get_at in_map name m = get m.h name

-- `Get`
pub get_value : Bytes → MessageHeader → Bytes
get_value name m = get_at (place_of (canonical name)) name m

abbrev pub length_values : ℤ → Option (List Bytes)
length_values (pos zero) = none
length_values (pos (suc n)) = some (itoa (suc n) ∷ [])
length_values (negsuc n) = none

abbrev pub all_at : Place → Bytes → MessageHeader → Option (List Bytes)
all_at in_host k m = if beq (host_of m) [] then none else some (host_of m ∷ [])
all_at in_length k m = length_values m.content_length
all_at in_encoding k m = m.transfer_encoding
all_at in_map k m = values m.h k

-- `All`
unfoldable pub all_values : Bytes → MessageHeader → Option (List Bytes)
all_values name m = all_at (place_of (canonical name)) (canonical name) m

abbrev pub del_at : Place → Bytes → MessageHeader → MessageHeader
del_at in_host name m = set_host [] m
del_at in_length name m = record m { content_length = negsuc 0 }
del_at in_encoding name m = record m { transfer_encoding = none }
del_at in_map name m = record m { h = del name m.h }

-- `Del`
unfoldable pub del_value : Bytes → MessageHeader → MessageHeader
del_value name m = del_at (place_of (canonical name)) name m

-- The second loop of `Map`.
abbrev pub put_all : MessageHeader → List Bytes → Headers → Headers
put_all m [] hm = hm
put_all m (k ∷ ks) hm = elim (all_values k m) [
  | none ↦ put_all m ks hm
  | some vs ↦ put_all m ks (put k vs hm)
]

-- `Map`
unfoldable pub header_map : MessageHeader → Headers
header_map m = put_all m (host_name ∷ content_length_name ∷ transfer_encoding_name ∷ []) m.h
