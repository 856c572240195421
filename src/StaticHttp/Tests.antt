-- ===== src/StaticHttp/Tests.antt =====
-- A directory with one file, some requests and feeds, and the theorems on them.
use meshly_core.Common.{
  ℕ, ◌≡◌, refl, true, false, Option, none, some, [], ◌∷◌, ◌++◌, arith, leb, nat_beq, if◌then◌else◌,
  nat_eq, list_eq, ok, err, list_beq, Bytes, Text, text, valid_utf8, IsUtf8,
}
use meshly_core.StaticHttp.{StaticSpec, Request, Response, Disk, guess_content_type}
use meshly_core.StaticHttp.Percent.{
  hex_digit, decode_bytes, percent_decode, digit, lower, upper, Escaped, nothing, as_is, as_plus,
  as_escape, percent_decode-Escaped,
}
use meshly_core.StaticHttp.Feed.{
  closed_early, Feed, closed, chunk, read_until_limited, read_headers_limited,
  find_header_terminator,
}
use meshly_core.StaticHttp.Feed.Lines.{line_of, flat, read_until_limited-line_of}
use meshly_core.StaticHttp.Feed.Headers.{IsBlock, read_headers_limited-IsBlock}
use meshly_core.StaticHttp.Answers.{success, build_response, respond}
use meshly_core.StaticHttp.Answers.Confined.{Served, build_response-Served}
use meshly_core.StaticHttp.Answers.Framing.{Framed, headless, with_method, head-get}
use meshly_core.StaticHttp.Parse.Printed.{request_line, fields}
use meshly_core.StaticHttp.Serve.{response_bytes, serve_one}
use meshly_core.StaticHttp.Serve.Rounds.{serve_one-printed}
use meshly_core.StaticHttp.Listing.{Entry, row}
use meshly_core.StaticHttp.Listing.Inert.{marks, Plain, has_dots, row_inert}

abbrev snowman : Text
snowman = text "a b+" ++ (226 ∷ 152 ∷ 131 ∷ [])

snowman-IsUtf8 : IsUtf8 snowman
unfolding valid_utf8
snowman-IsUtf8 = refl

abbrev sent : Text
sent = text "%61+b%2b%E2%98%83"

snowman-Escaped : Escaped snowman sent
snowman-Escaped = as_escape 54 49 6 1 _ _ (digit 6 (omega arith)) (digit 1 (omega arith)) (
    as_plus _ _ (
      as_is 98 _ _ refl refl (
        as_escape 50 98 2 11 _ _ (digit 2 (omega arith)) (lower 1 (omega arith)) (
          as_escape 69 50 14 2 _ _ (upper 4 (omega arith)) (digit 2 (omega arith)) (
            as_escape 57 56 9 8 _ _ (digit 9 (omega arith)) (digit 8 (omega arith))
              (as_escape 56 51 8 3 _ _ (digit 8 (omega arith)) (digit 3 (omega arith)) nothing))))))

percent_decode-Escaped_example : percent_decode sent ≡ some snowman
percent_decode-Escaped_example = percent_decode-Escaped snowman sent snowman-Escaped snowman-IsUtf8

-- A request line in two chunks.
abbrev two_chunks : Feed
two_chunks = chunk (text "GET /") (chunk (text " HTTP/1.1" ++ (13 ∷ 10 ∷ 65 ∷ [])) closed)

read_until_limited-line_of_example :
    (read_until_limited 10 8192 [] two_chunks).0 ≡ line_of 10 8192 [] (flat two_chunks)
read_until_limited-line_of_example = read_until_limited-line_of 10 8192 two_chunks tt

-- A request without headers: what is left behind its line, and then the next request.
abbrev no_headers : Feed
no_headers = chunk (13 ∷ 10 ∷ []) (chunk (text "GET / HTTP/1.1" ++ (13 ∷ 10 ∷ [])) closed)

no_end_of_headers : (read_headers_limited 65536 [] no_headers).0 ≡ err closed_early
unfolding read_headers_limited find_header_terminator
no_end_of_headers = refl

abbrev block : Bytes
block = text "A: b" ++ (13 ∷ 10 ∷ 13 ∷ 10 ∷ [])

found_block : (read_headers_limited 65536 [] (chunk (block ++ text "rest") closed)).0 ≡ ok block
unfolding read_headers_limited find_header_terminator
found_block = refl

read_headers_limited-IsBlock_example : IsBlock 65536 block
read_headers_limited-IsBlock_example =
    read_headers_limited-IsBlock 65536 (chunk (block ++ text "rest") closed) block found_block

-- The root is 0, and joining a path that is not empty gives the file 1.
abbrev disk : Disk ℕ
disk = record {
  canonicalize = λ p. some p;
  join = λ p rest. if list_beq rest [] then p else 1;
  starts_with = λ p root. leb root p;
  is_dir = λ p. some (nat_beq p 0);
  read = λ p. if nat_beq p 1 then some (text "hi there") else none;
  extension = λ p. some (text "txt");
}

abbrev spec : StaticSpec ℕ
spec = record { name = text "files"; root_dir = 0; allow_directory_listing = false }

abbrev render : ℕ → ℕ → Option Bytes
render root dir = some (text "page")

abbrev hello_txt : Request
hello_txt = record { method = text "GET"; path = text "/hello.txt?x=1"; keep_alive = true }

abbrev hello_response : Response
hello_response = success (guess_content_type (some (text "txt"))) hello_txt (text "hi there")

serves_hello : build_response disk render spec hello_txt ≡ ok hello_response
unfolding build_response percent_decode decode_bytes hex_digit valid_utf8
serves_hello = refl

build_response-Served_example : Served disk render spec hello_txt hello_response
build_response-Served_example =
    build_response-Served disk render spec hello_txt hello_response serves_hello

head-get_example :
    build_response disk render spec (with_method disk render spec (text "HEAD") hello_txt)
    ≡ headless
        (build_response disk render spec (with_method disk render spec (text "GET") hello_txt))
head-get_example = head-get disk render spec hello_txt

serve_one-printed_example :
    (r : Response) × (respond disk render spec
        (record { method = text "HEAD"; path = text "/"; keep_alive = true })
      ≡ ok r)
    × Framed (text "HEAD") r
    × ((serve_one disk render spec true
          (chunk (request_line (text "HEAD") (text "/") ++ fields) closed)).0
        ≡ (ok true, response_bytes r))
serve_one-printed_example =
    serve_one-printed disk render spec (text "HEAD") (text "/")
      (
        (omega arith, omega arith),
        (
          (omega arith, omega arith),
          ((omega arith, omega arith), ((omega arith, omega arith), tt)),
        ),
      )
      ((omega arith, omega arith), tt) (omega arith)

abbrev hostile : Entry
hostile = record { name = text "<a>"; is_dir = false; size = 3000; href = text "../\"" }

abbrev kilobytes : ℕ → ℕ → Text
kilobytes a b = text "2.9"

row_inert_example :
    (marks (row kilobytes hostile)
      ≡ marks (text "<tr><td><a href=\"\"></a></td><td class=\"size\"></td></tr>"))
    × ((link : Text) × (rest : Text) × (row kilobytes hostile
          ≡ text "<tr><td><a href=\"" ++ (link ++ (34 ∷ rest)))
        × Plain link
        × (has_dots link ≡ false))
row_inert_example = row_inert kilobytes (λ a b. refl) hostile
