-- ===== src/Http/Headers.antt =====
-- `http.Header`: a map from canonical names to lists of values, as an association list.
use forwarder.Base.{
  ◌≡◌, refl, Bool, true, false, Option, none, some, List, [], ◌∷◌, ◌++◌, Bytes, beq, beq_iff, arith,
  if◌then◌else◌, map,
}
use forwarder.Http.Text.{canonical}

abbrev pub Headers : Type 0
Headers = List (Bytes × List Bytes)

-- `h[k]`, with the key as it is.
unfoldable pub values : Headers → Bytes → Option (List Bytes)
values [] k = none
values ((j, vs) ∷ h) k = if beq j k then some vs else values h k

-- `h[k] = vs`
unfoldable pub put : Bytes → List Bytes → Headers → Headers
put k vs [] = (k, vs) ∷ []
put k vs ((j, ws) ∷ h) = if beq j k then (k, vs) ∷ h else (j, ws) ∷ put k vs h

-- `delete(h, k)`
unfoldable pub remove : Bytes → Headers → Headers
remove k [] = []
remove k ((j, ws) ∷ h) = if beq j k then remove k h else (j, ws) ∷ remove k h

abbrev pub or_nil : Option (List Bytes) → List Bytes
or_nil none = []
or_nil (some vs) = vs

abbrev pub first_or_empty : List Bytes → Bytes
first_or_empty [] = []
first_or_empty (v ∷ vs) = v

-- `h.Get(k)`
abbrev pub get : Headers → Bytes → Bytes
get h k = first_or_empty (or_nil (values h (canonical k)))

-- `h.Set(k, v)`
abbrev pub set_header : Bytes → Bytes → Headers → Headers
set_header k v h = put (canonical k) (v ∷ []) h

-- `h.Add(k, v)`
abbrev pub add_header : Bytes → Bytes → Headers → Headers
add_header k v h = put (canonical k) (or_nil (values h (canonical k)) ++ v ∷ []) h

-- `h.Del(k)`
abbrev pub del : Bytes → Headers → Headers
del k h = remove (canonical k) h

pub values-put :
    (k : Bytes) (vs : List Bytes) (h : Headers) (j : Bytes)
    → values (put k vs h) j ≡ (if beq k j then some vs else values h j)
unfolding values put
values-put k vs [] j = refl
values-put k vs ((i, ws) ∷ h) j =
    ground (arith, beq_iff k j, beq_iff i k, beq_iff i j, values-put k vs h j)

pub values-remove :
    (k : Bytes) (h : Headers) (j : Bytes)
    → values (remove k h) j ≡ (if beq k j then none else values h j)
unfolding values remove
values-remove k [] j = ground arith
values-remove k ((i, ws) ∷ h) j =
    ground (arith, beq_iff k j, beq_iff i k, beq_iff i j, values-remove k h j)

-- Whether a name is in a list of names.
abbrev pub is_in : Bytes → List Bytes → Bool
is_in k [] = false
is_in k (j ∷ js) = if beq j k then true else is_in k js

-- Deletes the names of a list, in order.
unfoldable pub del_all : List Bytes → Headers → Headers
del_all [] h = h
del_all (k ∷ ks) h = del_all ks (del k h)

pub values-del_all :
    (ks : List Bytes) (h : Headers) (j : Bytes)
    → values (del_all ks h) j ≡ (if is_in j (map canonical ks) then none else values h j)
unfolding del_all
values-del_all [] h j = refl
values-del_all (k ∷ ks) h j =
    ground (arith, values-del_all ks (del k h) j, values-remove (canonical k) h j)
