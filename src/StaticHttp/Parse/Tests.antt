-- ===== src/StaticHttp/Parse/Tests.antt =====
-- Requests as they arrive, and what the parser makes of them.
use meshly_core.Common.{
  ◌≡◌, refl, true, false, some, [], ◌∷◌, ◌++◌, arith, nat_eq, list_eq, ok, err, Bytes, text,
  valid_utf8,
}
use meshly_core.StaticHttp.Feed.{
  closed, chunk, read_until_limited, read_headers_limited, find_header_terminator,
}
use meshly_core.StaticHttp.Parse.{body_too_long, parse_usize, trim, read_fields, read_request}
use meshly_core.StaticHttp.Parse.Printed.{request_line, fields, read_request-printed}

abbrev crlf : Bytes
crlf = 13 ∷ 10 ∷ []

abbrev get_root : Bytes
get_root = text "GET /a HTTP/1.1" ++ crlf ++ text "Connection: TE,  Close" ++ crlf ++ crlf

closes :
    (read_request (chunk get_root closed)).0
    ≡ ok (some (record { method = text "GET"; path = text "/a"; keep_alive = false }))
unfolding read_request read_until_limited read_headers_limited find_header_terminator read_fields
    parse_usize trim valid_utf8
closes = refl

abbrev with_body : Bytes
with_body = text "GET / HTTP/1.1" ++ crlf ++ text "content-length: +12" ++ crlf ++ crlf

refuses_body : (read_request (chunk with_body closed)).0 ≡ err (body_too_long 12)
unfolding read_request read_until_limited read_headers_limited find_header_terminator read_fields
    parse_usize trim valid_utf8
refuses_body = refl

read_request-printed_example :
    (read_request (chunk (request_line (text "GET") (text "/a") ++ fields) closed)).0
    ≡ ok (some (record { method = text "GET"; path = text "/a"; keep_alive = true }))
read_request-printed_example =
    read_request-printed (text "GET") (text "/a")
      ((omega arith, omega arith), ((omega arith, omega arith), ((omega arith, omega arith), tt)))
      ((omega arith, omega arith), ((omega arith, omega arith), tt)) (omega arith)
