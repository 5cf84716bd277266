-- ===== src/Proxy/Sources/Reading.antt =====
-- What may be read, and how paths are spelled.
use forwarder.Base.{
  ℕ, ◌≡◌, ◌≢◌, refl, Bool, true, false, not, ◌||◌, ◌⊎◌, inl, inr, Option, none, some, [], ◌∷◌,
  Bytes, codes, beq, beq_iff, ◌==◌, if◌then◌else◌, Result, ok, err, arith,
}
use forwarder.Http.Text.{is_upper, is_lower}
use forwarder.Proxy.Sources.{
  SourceUrl, SourceError, Files, or_error, read_url, read_file, windows_path,
}

-- The bytes came from a reader that gave them.
abbrev Given : Option Bytes → Bytes → Type 0
Given o b = o ≡ some b

or_error-ok : (e : SourceError) (o : Option Bytes) {b : Bytes} → or_error e o ≡ ok b → o ≡ some b
or_error-ok e none h = cc
or_error-ok e (some c) h = cc

-- What a file URL may read: a path of this machine and nothing else.
pub record ReadsLocal (files : Files) (u : SourceUrl) (b : Bytes) : Type 0 where
  pub no_host : u.host ≡ []
  pub no_user : u.has_user ≡ false
  pub no_query : u.raw_query ≡ []
  pub no_fragment : u.fragment ≡ []
  pub has_path : u.path ≢ []
  pub from_file :
      ((u.path ≡ codes "-") × (files.stdin ≡ some b)) ⊎ (files.open_and_read u.path ≡ some b)

empty_of : (s : Bytes) → not (beq s []) ≡ false → s ≡ []
empty_of [] h = refl
empty_of (c ∷ s) h = cc

nonempty_of : (s : Bytes) → beq s [] ≡ false → s ≢ []
nonempty_of [] h k = cc
nonempty_of (c ∷ s) h k = cc

passes :
    (t : Bool) (e : SourceError) (rest : Result SourceError Bytes) {b : Bytes}
    → (if t then err e else rest) ≡ ok b
    → (t ≡ false) × (rest ≡ ok b)
passes true e rest h = cc
passes false e rest h = (refl, h)

module _ (files : Files) where
  chosen-ReadsLocal :
      (u : SourceUrl) {b : Bytes} (is_stdin : Bool)
      → beq u.path (codes "-") ≡ is_stdin
      → (if is_stdin
          then or_error SourceError.cannot_read files.stdin
          else or_error SourceError.cannot_read (files.open_and_read u.path))
        ≡ ok b
      → ((u.path ≡ codes "-") × (files.stdin ≡ some b)) ⊎ (files.open_and_read u.path ≡ some b)
  chosen-ReadsLocal u true e h =
      inl ((beq_iff u.path (codes "-")).0 e, or_error-ok SourceError.cannot_read files.stdin h)
  chosen-ReadsLocal u false e h =
      inr (or_error-ok SourceError.cannot_read (files.open_and_read u.path) h)

  -- A file URL is read only as a file of this machine, or as the standard input, when it names nothing but a path.
  read_file-ReadsLocal :
      (u : SourceUrl) {b : Bytes} → read_file files u ≡ ok b → ReadsLocal files u b
  unfolding read_file
  read_file-ReadsLocal u h =
      let (host, h1) = passes (not (beq u.host [])) SourceError.host_in_file _ h in
      let (user, h2) = passes u.has_user SourceError.user_in_file _ h1 in
      let (query, h3) = passes (not (beq u.raw_query [])) SourceError.query_in_file _ h2 in
      let (fragment, h4) = passes (not (beq u.fragment [])) SourceError.fragment_in_file _ h3 in
      let (path, h5) = passes (beq u.path []) SourceError.no_path _ h4 in
      record {
        no_host = empty_of u.host host;
        no_user = user;
        no_query = empty_of u.raw_query query;
        no_fragment = empty_of u.fragment fragment;
        has_path = nonempty_of u.path path;
        from_file = chosen-ReadsLocal u (beq u.path (codes "-")) refl h5;
      }

  -- A URL with the scheme file is read only as a file of this machine, or as the standard input, and only when
  -- it has no host, user, query or fragment.
  pub read_url-ReadsLocal :
      (u : SourceUrl) (b : Bytes)
      → u.scheme ≡ codes "file"
      → read_url files u ≡ ok b
      → ReadsLocal files u b
  unfolding read_url
  read_url-ReadsLocal u b e h = read_file-ReadsLocal u (rw e at h)

-- A path of Windows, in the spellings of RFC 8089.
pub data Spelling (a : ℕ) (s : Bytes) : Bytes → Type 0 where
  plain : Spelling a s (a ∷ b':' ∷ b'/' ∷ s)
  bar : Spelling a s (a ∷ b'|' ∷ b'/' ∷ s)
  rooted : Spelling a s (b'/' ∷ a ∷ b':' ∷ b'/' ∷ s)
  rooted_bar : Spelling a s (b'/' ∷ a ∷ b'|' ∷ b'/' ∷ s)

not_slash : (a : ℕ) → (is_upper a || is_lower a) ≡ true → (a == b'/') ≡ false
not_slash a h = ground (arith, h)

-- All the spellings of a path on a volume are the same path, and that path is left as it is.
pub windows_path-Spelling :
    (a : ℕ) (s : Bytes) {path : Bytes}
    → (is_upper a || is_lower a) ≡ true
    → Spelling a s path
    → windows_path path ≡ a ∷ b':' ∷ b'/' ∷ s
windows_path-Spelling a s h plain = ground (arith, not_slash a h, h)
windows_path-Spelling a s h bar = ground (arith, not_slash a h, h)
windows_path-Spelling a s h rooted = ground (arith, h)
windows_path-Spelling a s h rooted_bar = ground (arith, h)
