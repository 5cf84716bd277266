-- ===== src/H2/Grpc/Frames.antt =====
-- internal/martian/h2/grpc/grpc.go: messages on the wire, and what a call with a part of them has to lead to.
use forwarder.Base.{
  ℕ, zero, suc, ◌+◌, ◌*◌, ◌≤◌, ◌<◌, ◌≡◌, ◌⊎◌, inl, inr, refl, sym, ap, ◌∙◌, Bool, true, false, ◌&&◌,
  List, [], ◌∷◌, ◌++◌, Bytes, length, length-drop, get_or, take, drop, take-append-drop, ◌==◌,
  Result, ok, if◌then◌else◌, arith,
}
use forwarder.H2.Grpc.{
  Adapter, Encoding, DataState, reading_metadata, reading_message_data, GrpcError, Out, message,
  be32, put_be32,
}

-- A message on the wire as the emitter writes it when nothing is compressed.
abbrev pub frame : Bytes → Bytes
frame d = 0 ∷ (put_be32 (length d) ++ d)

abbrev pub frames : List Bytes → Bytes
frames [] = []
frames (d ∷ ds) = frame d ++ frames ds

abbrev pub IsSmall : Bytes → Type 0
IsSmall d = length d < 4294967296

pub be32-put_be32 : (n : ℕ) (s : Bytes) → n < 4294967296 → be32 (put_be32 n ++ s) ≡ n
be32-put_be32 n s h = omega arith

-- What an adapter with the stream `r` still before it has to deliver.
abbrev pub Expects : DataState → Bool → ℕ → Bytes → Bytes → List Bytes → Type 0
Expects reading_metadata c l b r ms = b ++ r ≡ frames ms
Expects reading_message_data c l b r [] = ⊥
Expects reading_message_data c l b r (m ∷ ms) =
    (l ≡ length m) × (c ≡ false) × (b ++ r ≡ m ++ frames ms)

-- When the loop of a call stops.
abbrev pub Stuck : DataState → ℕ → Bytes → Type 0
Stuck reading_metadata l b = length b < 5
Stuck reading_message_data l b = (length b < l) ⊎ (b ≡ [])

abbrev pub finished : Bool → DataState → Bytes → Bool
finished ended reading_metadata b = (length b == 0) && ended
finished ended reading_message_data b = false

-- The calls for some messages: only the last one may end the stream.
abbrev pub marks : Bool → List Bytes → List Out
marks e [] = []
marks e (d ∷ []) = message d e ∷ []
marks e (d ∷ d' ∷ ds) = message d false ∷ marks e (d' ∷ ds)

abbrev pub adapter_at : Encoding → DataState → Bytes → Bool → ℕ → Adapter
adapter_at e st b c l = record {
  enabled = true;
  encoding = e;
  buffer = b;
  state = st;
  compressed = c;
  message_length = l;
}

abbrev pub Outcome :
    Encoding → Result GrpcError (Adapter × List Out) → Bool → ℕ → Bytes → List Bytes → Type 0
Outcome e res ended n r ms =
    (st : DataState) × (b : Bytes) × (c : Bool) × (l : ℕ) × (ds : List Bytes) × (ms' : List Bytes)
    × (res ≡ ok (adapter_at e st b c l, marks (finished ended st b) ds))
    × (ms ≡ ds ++ ms')
    × Expects st c l b r ms'
    × Stuck st l b
    × (length b ≤ n)
    × ((ds ≡ []) → finished ended st b ≡ false)

pub marks-cons :
    (e : Bool) (d : Bytes) (ds : List Bytes)
    → (ds ≡ [] → e ≡ false)
    → marks e (d ∷ ds) ≡ message d false ∷ marks e ds
marks-cons e d [] h = rw (h refl)
marks-cons e d (d' ∷ ds) h = refl

pub less_or_not : (a b : ℕ) → (a < b) ⊎ (b ≤ a)
less_or_not a zero = inr (omega arith)
less_or_not zero (suc b) = inl (omega arith)
less_or_not (suc a) (suc b) = elim (less_or_not a b) [
  | inl h ↦ inl (omega arith)
  | inr h ↦ inr (omega arith)
]

pub length-drop-le : (n : ℕ) (b : Bytes) → length (drop n b) ≤ length b
length-drop-le n b = omega (arith, length-drop n b)

pub empty_not : (b : Bytes) (e : Bool) → 0 < length b → ((length b == 0) && e) ≡ false
empty_not b e h = ground arith

pub suc-not-zero : {n : ℕ} → suc n ≡ 0 → ⊥
suc-not-zero h = omega arith

pub not_empty : {A : Type 0} (n : ℕ) (a b : A) → (if suc n == 0 then a else b) ≡ b
not_empty n a b = ground arith

pub cons-not-nil : {d : Bytes} {ds : List Bytes} {P : Type 0} → d ∷ ds ≡ [] → P
cons-not-nil h = absurd (suc-not-zero (ap length h))

-- The front of a stream that is long enough.
pub take-front :
    (b r m f : Bytes)
    → b ++ r ≡ m ++ f
    → length m ≤ length b
    → (take (length m) b ≡ m) × (drop (length m) b ++ r ≡ f)
take-front b r [] f e h = (refl, e)
take-front [] r (x ∷ m) f e h = absurd (omega arith)
take-front (y ∷ b) r (x ∷ m) f e h =
    let (t, d) = take-front b r m f (ap (λ k. drop 1 k) e) (omega arith) in
    let g : y ≡ x = ap (λ k. get_or k 0 0) e in (rw (g, t), d)

pub split-header :
    (b r m f : Bytes)
    → b ++ r ≡ frame m ++ f
    → 5 ≤ length b
    → (b₁ : Bytes) × (b ≡ 0 ∷ (put_be32 (length m) ++ b₁)) × (b₁ ++ r ≡ m ++ f)
split-header b r m f e h =
    let (t, d) = take-front b r (0 ∷ put_be32 (length m)) (m ++ f) e h in
    (drop 5 b, sym (take-append-drop 5 b) ∙ ap (λ k. k ++ drop 5 b) t, d)

abbrev pub rounds : DataState → Bytes → ℕ
rounds reading_metadata b = 2 * length b
rounds reading_message_data b = 2 * length b + 1
