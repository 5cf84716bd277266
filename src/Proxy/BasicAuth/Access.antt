-- ===== src/Proxy/BasicAuth/Access.antt =====
-- Who gets through.
use forwarder.Base.{
  ◌⊎◌, inl, inr, Bool-cases, ◌≡◌, ◌↔◌, refl, true, false, Option, none, some, [], ◌∷◌, ◌++◌, Bytes,
  codes, beq_iff, beq_refl, cut, occurs, take, drop, arith, ltb, length,
}
use forwarder.Http.Headers.{Headers, get, values, del, values-remove}
use forwarder.Http.Text.{canonical}
use forwarder.Proxy.BasicAuth.{
  parse_basic_auth, basic_auth, authenticated_request, equal_fold, passed_on, refusal, wrap,
}

cut-join :
    (user pass : Bytes)
    → occurs b':' user ≡ false
    → cut b':' (user ++ (b':' ∷ pass)) ≡ some (user, pass)
cut-join [] pass h = refl
cut-join (c ∷ user) pass h = ground (arith, cut-join user pass)

join-cut : (c user pass : Bytes) → cut b':' c ≡ some (user, pass) → c ≡ user ++ (b':' ∷ pass)
join-cut [] user pass h = cc
join-cut (x ∷ c) user pass h = go (cut b':' c) (join-cut c) refl
  where
    go :
        (o : Option (Bytes × Bytes))
        → ((a b : Bytes) → cut b':' c ≡ some (a, b) → c ≡ a ++ (b':' ∷ b))
        → cut b':' c ≡ o
        → x ∷ c ≡ user ++ (b':' ∷ pass)
    go none ih e = ground arith
    go (some (a, b)) ih e = ground (arith, ih a b e)

-- The text of a header that names a user and a password.
abbrev pub Names : (Bytes → Option Bytes) → Bytes → Bytes → Bytes → Type 0
Names decode_string auth user pass =
    (ltb (length auth) 6 ≡ false)
    × (equal_fold (take 6 auth) (codes "Basic ") ≡ true)
    × (decode_string (drop 6 auth) ≡ some (user ++ (b':' ∷ pass)))

parse_basic_auth_iff :
    (decode_string : Bytes → Option Bytes) (auth user pass : Bytes)
    → occurs b':' user ≡ false
    → (parse_basic_auth decode_string auth ≡ some (user, pass)) ↔ Names decode_string auth user pass
unfolding parse_basic_auth
parse_basic_auth_iff decode_string auth user pass plain = go (decode_string (drop 6 auth)) refl
  where
    go :
        (o : Option Bytes)
        → decode_string (drop 6 auth) ≡ o
        → (parse_basic_auth decode_string auth ≡ some (user, pass))
          ↔ Names decode_string auth user pass
    go none e = ground arith
    go (some c) e = ground (arith, cut-join user pass plain, join-cut c user pass)

parse-nil : (decode_string : Bytes → Option Bytes) → parse_basic_auth decode_string [] ≡ none
unfolding parse_basic_auth
parse-nil decode_string = refl

basic_auth_iff :
    (decode_string : Bytes → Option Bytes) (header : Bytes) (h : Headers) (user pass : Bytes)
    → (authenticated_request decode_string header h user pass ≡ true)
      ↔ (parse_basic_auth decode_string (get h header) ≡ some (user, pass))
unfolding authenticated_request basic_auth
basic_auth_iff decode_string header h user pass =
    go (get h header) refl (parse_basic_auth decode_string (get h header)) refl
  where
    go :
        (a : Bytes)
        → get h header ≡ a
        → (o : Option (Bytes × Bytes)) → parse_basic_auth decode_string (get h header) ≡ o
        → (authenticated_request decode_string header h user pass ≡ true)
          ↔ (parse_basic_auth decode_string (get h header) ≡ some (user, pass))
    go a e none f = ground arith
    go [] e (some (u, w)) f = ground (arith, parse-nil decode_string)
    go (x ∷ a) e (some (u, w)) f = ground (arith, beq_iff u user, beq_iff w pass)

-- A request is authenticated exactly when its header is longer than the scheme's name, begins with it in any case and
-- decodes to the user and the password with a colon in between, for a user without a colon.
pub authenticated_request_iff :
    (decode_string : Bytes → Option Bytes) (header : Bytes) (h : Headers) (user pass : Bytes)
    → occurs b':' user ≡ false
    → (authenticated_request decode_string header h user pass ≡ true)
      ↔ Names decode_string (get h header) user pass
authenticated_request_iff decode_string header h user pass plain =
    let (a, b) = basic_auth_iff decode_string header h user pass in
    let (c, d) = parse_basic_auth_iff decode_string (get h header) user pass plain in
    (λ e. c (a e), λ e. b (d e))

-- Either the request is authenticated, and the wrapped handler is called without the credentials, or it is not, and the
-- answer is 407 for a proxy and 401 for a server.
pub wrap_lem :
    (decode_string : Bytes → Option Bytes) (header user pass : Bytes) (h : Headers)
    → ((authenticated_request decode_string header h user pass ≡ true)
        × ((seen : Headers) × (wrap decode_string header user pass h ≡ passed_on seen)
            × (values seen (canonical header) ≡ none)))
      ⊎ ((authenticated_request decode_string header h user pass ≡ false)
          × (wrap decode_string header user pass h ≡ refusal header))
unfolding wrap
wrap_lem decode_string header user pass h =
    elim (Bool-cases (authenticated_request decode_string header h user pass)) [
      | inl e ↦ inl (
        e,
        (
          del header h,
          rw e refl,
          rw (values-remove (canonical header) h (canonical header), beq_refl (canonical header)),
        ),
      )
      | inr e ↦ inr (e, rw e refl)
    ]
