-- ===== src/Martian/MessageHeader/View.antt =====
-- The operations agree with each other, whatever the place of a header is.
use forwarder.Base.{
  ◌≡◌, refl, sym, ◌∙◌, true, false, Option, none, some, List, [], ◌∷◌, Bytes, beq, beq_iff,
  beq_refl, if◌then◌else◌, arith, Bool-cases, inl, inr,
}
use forwarder.Http.Headers.{Headers, values, values-remove, values-put, put, is_in}
use forwarder.Http.Text.{canonical}
use forwarder.Martian.MessageHeader.{
  MessageHeader, Place, in_host, in_length, in_encoding, in_map, place_of, all_at, del_at,
  all_values, del_value, header_map, put_all, host_name, content_length_name,
  transfer_encoding_name,
}

all_at-del_at :
    (p : Place) (name : Bytes) (m : MessageHeader)
    → all_at p (canonical name) (del_at p name m) ≡ none
all_at-del_at in_host name m = ground arith
all_at-del_at in_length name m = refl
all_at-del_at in_encoding name m = refl
all_at-del_at in_map name m =
    rw (values-remove (canonical name) m.h (canonical name), beq_refl (canonical name))

-- A header that was deleted has no values, also Host, Content-Length and Transfer-Encoding.
pub all_values-del_value :
    (name : Bytes) (m : MessageHeader) → all_values name (del_value name m) ≡ none
unfolding all_values del_value
all_values-del_value name m = all_at-del_at (place_of (canonical name)) name m

abbrev or_else : Option (List Bytes) → Option (List Bytes) → Option (List Bytes)
or_else none v = v
or_else (some u) v = some u

values-put_all :
    (m : MessageHeader) (ks : List Bytes) (hm : Headers) (j : Bytes)
    → values (put_all m ks hm) j
      ≡ (if is_in j ks then or_else (all_values j m) (values hm j) else values hm j)
values-put_all m [] hm j = refl
values-put_all m (k ∷ ks) hm j = go (all_values k m) refl (values-put_all m ks)
  where
    go :
        (o : Option (List Bytes))
        → all_values k m ≡ o
        → ((hm : Headers) (j : Bytes)
            → values (put_all m ks hm) j
              ≡ (if is_in j ks then or_else (all_values j m) (values hm j) else values hm j))
        → values (put_all m (k ∷ ks) hm) j
          ≡ (if is_in j (k ∷ ks) then or_else (all_values j m) (values hm j) else values hm j)
    go none e ih = ground (arith, ih hm j, beq_iff k j)
    go (some vs) e ih = ground (arith, ih (put k vs hm) j, beq_iff k j, values-put k vs hm j)

-- The three fields are not in the map, as net/http keeps them.
abbrev pub KeptOutside : Headers → Type 0
KeptOutside h =
    (values h host_name ≡ none)
    × (values h content_length_name ≡ none)
    × (values h transfer_encoding_name ≡ none)

abbrev outside : List Bytes
outside = host_name ∷ content_length_name ∷ transfer_encoding_name ∷ []

none_of_three :
    (h : Headers) (x y z k : Bytes)
    → values h x ≡ none
    → values h y ≡ none
    → values h z ≡ none
    → is_in k (x ∷ y ∷ z ∷ []) ≡ true
    → values h k ≡ none
none_of_three h x y z k a b c e = ground (arith, beq_iff x k, beq_iff y k, beq_iff z k)

kept_outside :
    (h : Headers) (k : Bytes) → KeptOutside h → is_in k outside ≡ true → values h k ≡ none
kept_outside h k (a, b, c) e =
    none_of_three h host_name content_length_name transfer_encoding_name k a b c e

or_else-none : (o : Option (List Bytes)) → or_else o none ≡ o
or_else-none none = refl
or_else-none (some vs) = refl

beq_comm : (a b : Bytes) → beq a b ≡ beq b a
beq_comm a b = ground (arith, beq_iff a b, beq_iff b a)

other_than_three :
    (x y z k : Bytes)
    → is_in k (x ∷ y ∷ z ∷ []) ≡ false
    → (if beq k x
        then in_host
        else if beq k y
        then in_length
        else if beq k z
        then in_encoding
        else in_map)
      ≡ in_map
other_than_three x y z k e = ground (arith, beq_comm k x, beq_comm k y, beq_comm k z)

place_of-in_map : (k : Bytes) → is_in k outside ≡ false → place_of k ≡ in_map
unfolding place_of
place_of-in_map k e = other_than_three host_name content_length_name transfer_encoding_name k e

all_values-in_map :
    (m : MessageHeader) (k : Bytes)
    → canonical k ≡ k
    → is_in k outside ≡ false
    → all_values k m ≡ values m.h k
unfolding all_values
all_values-in_map m k e i = rw (e, place_of-in_map k i)

-- The map of all headers has, under a canonical name, the values that the name has, when the three fields that are kept
-- outside of the map of a request or a response are not in it.
pub values-header_map :
    (m : MessageHeader) (k : Bytes)
    → KeptOutside m.h
    → canonical k ≡ k
    → values (header_map m) k ≡ all_values k m
unfolding header_map
values-header_map m k kept e =
    values-put_all m outside m.h k ∙ (elim (Bool-cases (is_in k outside)) [
      | inl i ↦ rw (i, kept_outside m.h k kept i) (or_else-none (all_values k m))
      | inr i ↦ rw i (sym (all_values-in_map m k e i))
    ])
