-- ===== src/Tests/Headers.antt =====
-- header and internal/martian at concrete messages.
use forwarder.Base.{
  ◌⊎◌, ℕ, ◌≡◌, refl, true, false, none, List, [], ◌∷◌, ◌++◌, Bytes, codes, ok, err,
}
use forwarder.Base.Int.{pos}
use forwarder.Http.Headers.{Headers, values, get, put}
use forwarder.Http.Message.{Request}
use forwarder.Http.Rules.RoundTrip.{parse_header-show_rule}
use forwarder.Http.Rules.{add, parse_header, show_rule, name_matches, is_name, skip_blanks, ends_in}
use forwarder.Http.Text.{canonical, split_by, trim_left, trim_right}
use forwarder.Martian.Fifo.Immutable.{run_group-to_immutable}
use forwarder.Martian.Fifo.{Modifiers, no_more, single, grouped, run_group, to_immutable}
use forwarder.Martian.Framing as Framing
use forwarder.Martian.Framing.Agreement.{Framed, modify_request-Framed}
use forwarder.Martian.HopByHop.Laws.{IsRemoved, values-remove_hop_by_hop_headers}
use forwarder.Martian.HopByHop.{remove_hop_by_hop_headers}
use forwarder.Martian.Via as Via
use forwarder.Martian.Via.Loop.{modify_request_twice}
use forwarder.Martian.Via.{LoopError}

abbrev fields : Headers
fields =
    (codes "Connection", codes "X-Hop" ∷ [])
    ∷ (codes "X-Hop", codes "1" ∷ [])
    ∷ (codes "Content-Length", codes "5" ∷ codes "5" ∷ [])
    ∷ []

abbrev fixed : Headers
fixed =
    (codes "Connection", codes "X-Hop" ∷ [])
    ∷ (codes "X-Hop", codes "1" ∷ [])
    ∷ (codes "Content-Length", codes "5" ∷ [])
    ∷ []

abbrev request_of : Headers → Request
request_of h = record {
  method = codes "GET";
  proto_major = 1;
  proto_minor = 1;
  header = h;
  host = codes "a.example";
  remote_addr = codes "10.0.0.1";
  scheme = codes "http";
  hostname = codes "a.example";
  url = codes "/";
  url_host = [];
  content_length = pos 0;
  tls = false;
  close = false;
}

values-remove_hop_by_hop_headers_example :
    (IsRemoved fields (codes "X-Hop")
      × (values (remove_hop_by_hop_headers fields) (codes "X-Hop") ≡ none))
    ⊎ (¬ (IsRemoved fields (codes "X-Hop"))
        × (values (remove_hop_by_hop_headers fields) (codes "X-Hop")
            ≡ values fields (codes "X-Hop")))
values-remove_hop_by_hop_headers_example = values-remove_hop_by_hop_headers fields (codes "X-Hop")

framing_ok : Framing.modify_request fields ≡ ok fixed
unfolding Framing.modify_request values canonical split_by trim_left trim_right put
framing_ok = refl

modify_request-Framed_example : Framed fields fixed
modify_request-Framed_example = modify_request-Framed fields fixed framing_ok

abbrev with_via : Bytes → Request
with_via v = request_of ((codes "Via", v ∷ []) ∷ [])

first_pass : Via.modify_request (codes "p-1") (request_of []) ≡ ok (with_via (codes "1.1 p-1"))
unfolding Via.modify_request values canonical put
first_pass = refl

same_value :
    get (with_via (codes "x, 1.1 p-1, y")).header (codes "Via")
    ≡ codes "x, " ++ (get (with_via (codes "1.1 p-1")).header (codes "Via") ++ codes ", y")
unfolding values canonical
same_value = refl

modify_request_twice_example :
    Via.modify_request (codes "p-1") (with_via (codes "x, 1.1 p-1, y"))
    ≡ err (record {
      status = 400;
      via = get (with_via (codes "x, 1.1 p-1, y")).header (codes "Via");
      closed = record (with_via (codes "x, 1.1 p-1, y")) { close = true };
    })
modify_request_twice_example =
    modify_request_twice (codes "p-1") (codes "x, ") (codes ", y") (request_of [])
      (with_via (codes "1.1 p-1")) (with_via (codes "x, 1.1 p-1, y")) first_pass same_value

abbrev push : ℕ → List ℕ → List ℕ × List ℕ
push n m = (n ∷ m, [])

abbrev fail_with : ℕ → List ℕ → List ℕ × List ℕ
fail_with n m = (m, n ∷ [])

abbrev nested : Modifiers (List ℕ) ℕ
nested = single (push 1) (
    grouped true (single (fail_with 7) (single (push 2) (single (fail_with 8) no_more)))
      (grouped false (single (push 3) no_more) no_more))

run_group-to_immutable_example :
    run_group false (to_immutable false nested) [] [] ≡ run_group false nested [] []
run_group-to_immutable_example = run_group-to_immutable false nested [] []

parse_header-show_rule_example :
    parse_header (show_rule (add (codes "X-A") (codes "b c")))
    ≡ ok (add (codes "X-A") (codes "b c"))
unfolding name_matches is_name skip_blanks ends_in
parse_header-show_rule_example =
    parse_header-show_rule (add (codes "X-A") (codes "b c")) (refl, refl, (refl, refl, refl))
