-- ===== src/Martian/Conn/HeaderOnly.antt =====
-- internal/martian/proxy_conn.go: the responses that are written without a body. `http.Header.Write` and
-- `http.StatusText` are parameters, and so is the order of the keys of a map.
use forwarder.Base.{
  map, ℕ, List, [], ◌∷◌, ◌++◌, Bytes, codes, beq, ltb, if◌then◌else◌, has_prefix, drop, length,
}
use forwarder.Base.Decimal.{itoa}
use forwarder.Http.Headers.{Headers}
use forwarder.Http.Message.{Response}

abbrev crlf : Bytes
crlf = 13 ∷ 10 ∷ []

abbrev status_line_text : (ℕ → Bytes) → Response → Bytes
status_line_text status res =
    if beq res.status []
    then (if beq (status res.status_code) []
        then codes "status code " ++ itoa res.status_code
        else status res.status_code)
    else if has_prefix (itoa res.status_code ++ codes " ") res.status
    then drop (length (itoa res.status_code ++ codes " ")) res.status
    else res.status

abbrev padded : ℕ → Bytes
padded n =
    if ltb n 10 then codes "00" ++ itoa n else if ltb n 100 then codes "0" ++ itoa n else itoa n

abbrev joined_names : List Bytes → Bytes
joined_names [] = []
joined_names (k ∷ []) = k
joined_names (k ∷ k' ∷ ks) = k ++ (codes ", " ++ joined_names (k' ∷ ks))

abbrev trailer_line : List Bytes → Bytes
trailer_line [] = []
trailer_line (k ∷ ks) = codes "Trailer: " ++ joined_names (k ∷ ks)

-- `writeHeaderOnlyResponse`: the bytes that are written when no write fails.
unfoldable pub header_only_response : (ℕ → Bytes) → (Headers → Bytes) → Response → Bytes
header_only_response status header_lines res =
    codes "HTTP/"
    ++ (itoa res.proto_major
        ++ (codes "."
            ++ (itoa res.proto_minor
                ++ (codes " "
                    ++ (padded res.status_code
                        ++ (codes " "
                            ++ (status_line_text status res
                                ++ (crlf
                                    ++ (header_lines res.header
                                        ++ (trailer_line (map (λ f. f.0) res.trailer)
                                            ++ crlf))))))))))
