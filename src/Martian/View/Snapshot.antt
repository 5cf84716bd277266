-- ===== src/Martian/View/Snapshot.antt =====
-- What a snapshot shows, and what it leaves of the message.
use mathlib.Core.Path.{subst}
use forwarder.Base.{
  ℕ, ◌+◌, ◌-◌, ◌≡◌, refl, sym, ap, ◌∙◌, Bool, true, false, not, ◌&&◌, ◌||◌, ◌==◌, Option, none,
  some, List, [], ◌∷◌, ◌++◌, append-nil, Bytes, codes, beq, length, take, drop, take-append,
  drop-append, drop-append_past, Result, ok, err, if◌then◌else◌, arith,
}
use forwarder.Base.Int.{ℤ, pos, negsuc}
use forwarder.Base.Decimal.{itoa}
use forwarder.Http.Headers.{Headers, get}
use forwarder.Martian.View.{
  Body, Message, View, Printing, match_content_type, trailer_text, body_text, joined_comma,
  encoding_line, length_line, skip_or_read, snapshot_body, seen, response_head, framing_lines,
  chunked_after, snapshot_response, header_reader, body_section, trailer_reader,
}

-- Whether the views of a message are in chunks: as the last transfer encoding says, or, without one, as before.
abbrev pub in_chunks : Bool → List Bytes → Bool
in_chunks before [] = before
in_chunks before (e ∷ []) = beq e (codes "chunked")
in_chunks before (e ∷ f ∷ es) = in_chunks before (f ∷ es)

-- The lines on the coding and on the length, and the text of a response's head, line by line.
abbrev pub coding_shown : List Bytes → Bytes
coding_shown [] = []
coding_shown (e ∷ es) = codes "Transfer-Encoding: " ++ (joined_comma (e ∷ es) ++ codes "\r\n")

abbrev pub length_shown : Bool → ℤ → Bytes
length_shown true n = []
length_shown false (pos n) = codes "Content-Length: " ++ (itoa n ++ codes "\r\n")
length_shown false (negsuc n) = []

abbrev pub head_shown : Printing → Bool → ℕ → ℕ → Bytes → Message → Bytes
head_shown p chunked major minor status m =
    (codes "HTTP/" ++ (itoa major ++ (codes "." ++ itoa minor)))
    ++ (codes " " ++ (status ++ codes "\r\n"))
    ++ ((coding_shown m.transfer_encoding ++ length_shown chunked m.content_length)
        ++ (p.write_subset m.header (codes "Content-Length" ∷ codes "Transfer-Encoding" ∷ [])
            ++ codes "\r\n"))

-- The bytes of a body, as they are or in chunks, and what stands behind them.
abbrev pub bytes_shown : Printing → Bool → Bytes → Bytes
bytes_shown p true d = p.chunks d
bytes_shown p false d = d

abbrev pub end_shown : Printing → Option Headers → Bool → Bytes
end_shown p none true = codes "\r\n"
end_shown p none false = []
end_shown p (some t) chunked = p.write_subset t []

-- A body is left out when bodies are to be skipped and the message's type is none of those that are shown all the same.
abbrev pub is_skipped : View → Message → Bool
is_skipped v m =
    v.skips_body && not (match_content_type v.cts (get m.header (codes "Content-Type")))

-- A snapshot of a body's message, by whether the body is left out and cannot be read: nothing behind the head, and the
-- message as it was; or the whole body and the trailer, and the same body in memory; or an error, and what was read is lost.
abbrev pub BodyShown :
    Printing → Bool → Message → Body → Bool → Bool → Result View View × Message → Type 0
BodyShown p chunked m b true broken (ok v, m') =
    (body_section v ≡ []) × (trailer_reader v ≡ []) × (m' ≡ m)
BodyShown p chunked m b true broken (err v, m') = ⊥
BodyShown p chunked m b false false (ok v, m') =
    (body_section v ≡ bytes_shown p chunked b.content)
    × (trailer_reader v ≡ end_shown p m.trailer chunked)
    × (m' ≡ record m {
      body = some (record { content = b.content; is_broken = false; is_writable = false });
    })
BodyShown p chunked m b false false (err v, m') = ⊥
BodyShown p chunked m b false true (ok v, m') = ⊥
BodyShown p chunked m b false true (err v, m') =
    m' ≡ record m { body = some (record b { content = [] }) }

-- The same without a body too.
abbrev pub Shown :
    Printing → Bool → View → Message → Option Body → Result View View × Message → Type 0
Shown p chunked v m none (ok v', m') = (body_section v' ≡ []) × (trailer_reader v' ≡ []) × (m' ≡ m)
Shown p chunked v m none (err v', m') = ⊥
Shown p chunked v m (some b) r = BodyShown p chunked m b (is_skipped v m) b.is_broken r

-- A view that was made shows the head in front of all else.
abbrev pub HeadShown : Bytes → Result View View × Message → Type 0
HeadShown head (ok v, m') = header_reader v ≡ head
HeadShown head (err v, m') = Unit

take_all : (d : Bytes) → take (length d) d ≡ d
take_all d = let e = take-append d [] in ap (take (length d)) (sym (append-nil d)) ∙ e

drop_all : (d : Bytes) → drop (length d) d ≡ []
drop_all d = let e = drop-append d [] in ap (drop (length d)) (sym (append-nil d)) ∙ e

middle :
    (a b c : Bytes) → take (length a + length b - length a) (drop (length a) (a ++ (b ++ c))) ≡ b
middle a b c =
    let e : length a + length b - length a ≡ length b = omega arith in
    rw (e, drop-append a (b ++ c)) (take-append b c)

last_part : (a b c : Bytes) → drop (length a + length b) (a ++ (b ++ c)) ≡ c
last_part a b c =
    drop-append_past a (b ++ c) (length a + length b) (length b) refl ∙ drop-append b c

in_chunks-last : (before : Bool) (es : List Bytes) → chunked_after before es ≡ in_chunks before es
in_chunks-last before [] = refl
in_chunks-last before (e ∷ []) = refl
in_chunks-last before (e ∷ f ∷ es) = in_chunks-last before (f ∷ es)

module _ (p : Printing) where
  length_shown-line : (chunked : Bool) (n : ℤ) → length_line chunked n ≡ length_shown chunked n
  length_shown-line true n = refl
  length_shown-line false (pos n) = refl
  length_shown-line false (negsuc n) = refl

  coding_shown-line : (es : List Bytes) → encoding_line es ≡ coding_shown es
  coding_shown-line [] = refl
  coding_shown-line (e ∷ es) = refl

  response_head-shown :
      (v : View) (major minor : ℕ) (status : Bytes) (m : Message)
      → response_head p v major minor status m
        ≡ head_shown p (in_chunks v.chunked m.transfer_encoding) major minor status m
  response_head-shown v major minor status m =
      rw
        (
          in_chunks-last v.chunked m.transfer_encoding,
          coding_shown-line m.transfer_encoding,
          length_shown-line (in_chunks v.chunked m.transfer_encoding) m.content_length,
        )
        refl

  bytes_shown-text : (chunked : Bool) (d : Bytes) → body_text p chunked d ≡ bytes_shown p chunked d
  bytes_shown-text true d = refl
  bytes_shown-text false d = refl

  end_shown-text :
      (t : Option Headers) (chunked : Bool) → trailer_text p t chunked ≡ end_shown p t chunked
  end_shown-text none true = refl
  end_shown-text none false = refl
  end_shown-text (some t) chunked = refl

  no_body :
      (head : Bytes)
      → (take (length head - length head) (drop (length head) head) ≡ [])
        × (drop (length head) head ≡ [])
  no_body head = (let e : length head - length head ≡ 0 = omega arith in rw e refl, drop_all head)

  BodyShown-skip_or_read :
      (v : View) (head : Bytes) (m : Message) (b : Body) (skip broken : Bool)
      → b.is_broken ≡ broken
      → BodyShown p v.chunked m b skip broken (skip_or_read p v head m b skip)
        × HeadShown head (skip_or_read p v head m b skip)
  BodyShown-skip_or_read v head m b true broken e =
      (((no_body head).0, (no_body head).1, refl), take_all head)
  BodyShown-skip_or_read v head m b false false e = rw e (
    (
      middle head (body_text p v.chunked b.content) (trailer_text p m.trailer v.chunked)
          ∙ bytes_shown-text v.chunked b.content,
      last_part head (body_text p v.chunked b.content) (trailer_text p m.trailer v.chunked)
          ∙ end_shown-text m.trailer v.chunked,
      refl,
    ),
    take-append head (body_text p v.chunked b.content ++ trailer_text p m.trailer v.chunked),
  )
  BodyShown-skip_or_read v head m b false true e = rw e (refl, tt)

  snapshot_body-Shown :
      (v : View) (head : Bytes) (m : Message) (o : Option Body)
      → Shown p v.chunked v m o (snapshot_body p v head m o)
        × HeadShown head (snapshot_body p v head m o)
  snapshot_body-Shown v head m none = (((no_body head).0, (no_body head).1, refl), take_all head)
  snapshot_body-Shown v head m (some b) =
      BodyShown-skip_or_read v head m b (is_skipped v m) b.is_broken refl

  -- The view of a response shows its head: the line with its version and status, the line on its coding, the one on its
  -- length unless it is shown in chunks, its other fields and a blank line. Behind that there is nothing, with the
  -- response untouched, if it has no body or the body is to be skipped and its type is not one to be shown all the same;
  -- else there are the whole body and the trailer, with the same body left in memory. Only a body that is
  -- not skipped and cannot be read is an error, and then what was read of it is lost to the response.
  pub snapshot_response-Shown :
      (v : View) (major minor : ℕ) (status : Bytes) (code : ℕ) (m : Message)
      → Shown p
          (in_chunks v.chunked m.transfer_encoding)
          v
          m
          m.body
          (snapshot_response p v major minor status code m)
        × HeadShown
            (head_shown p (in_chunks v.chunked m.transfer_encoding) major minor status m)
            (snapshot_response p v major minor status code m)
  unfolding snapshot_response
  snapshot_response-Shown v major minor status code m =
      let result = snapshot_response p v major minor status code m in
      let compress =
        if code == 204 || code == 206 then [] else get m.header (codes "Content-Encoding") in
      let (rest, head) =
        snapshot_body-Shown (seen v m compress) (response_head p v major minor status m) m m.body in
      (
        subst (λ c. Shown p c v m m.body result) (in_chunks-last v.chunked m.transfer_encoding)
            rest,
        subst (λ h. HeadShown h result) (response_head-shown v major minor status m) head,
      )

  -- A view that has shown a chunked request takes a response without a transfer encoding for
  -- a chunked one, and leaves its length out.
  pub stale_chunked :
      (v : View) (m : Message)
      → v.chunked ≡ true
      → m.transfer_encoding ≡ []
      → framing_lines (chunked_after v.chunked m.transfer_encoding) m ≡ []
  stale_chunked v m h e = rw (e, h) refl
