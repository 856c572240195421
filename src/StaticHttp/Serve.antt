-- ===== src/StaticHttp/Serve.antt =====
-- One round of the static service: `serve_one` and `write_response` of crates/client/src/static_http.rs, and
-- the loop of `StaticHandler::handle` around them.
pub mod Rounds
use meshly_core.Common.{
  ℕ, ◌≡◌, refl, Bool, true, false, Option, none, some, List, [], ◌∷◌, ◌++◌, if◌then◌else◌, nat_eq,
  list_eq, Result, ok, err, panic, Bytes, Text, text,
}
use meshly_core.Common.Strings.{decimal}
use meshly_core.StaticHttp.{StaticSpec, Request, Response, Disk}
use meshly_core.StaticHttp.Feed.{Feed}
use meshly_core.StaticHttp.Parse.{RequestError, read_request}
use meshly_core.StaticHttp.Answers.{respond}

abbrev header_lines : List (Text × Text) → Bytes
header_lines [] = []
header_lines ((k, v) ∷ rest) = k ++ text ": " ++ v ++ (13 ∷ 10 ∷ []) ++ header_lines rest

-- What `write_response` writes.
unfoldable pub response_bytes : Response → Bytes
unfolding decimal
response_bytes r =
    text "HTTP/1.1 "
    ++ decimal r.status
    ++ text " "
    ++ r.status_text
    ++ (13 ∷ 10 ∷ [])
    ++ header_lines r.headers
    ++ (13 ∷ 10 ∷ [])
    ++ r.body

-- What ends a round with an error.
pub data ServeError : Type 0 where
  request_error : RequestError → ServeError
  write_error : ServeError
  no_response : ServeError

module _ {FilePath : Type 0} (disk : Disk FilePath) (render : FilePath → FilePath → Option Bytes)
    (spec : StaticSpec FilePath) where
  -- `wrote` tells whether the response can be written.
  abbrev pub answered : Bool → Request → Result ℕ Response → Result ServeError Bool × Bytes
  answered wrote req (ok r) =
      if wrote then (ok req.keep_alive, response_bytes r) else (err write_error, [])
  answered wrote req (err status) = (err no_response, [])
  answered wrote req panic = (panic, [])

  abbrev pub served :
      Bool → Result RequestError (Option Request) × Feed → (Result ServeError Bool × Bytes) × Feed
  served wrote (ok (some req), rest) = (answered wrote req (respond disk render spec req), rest)
  served wrote (ok none, rest) = ((ok false, []), rest)
  served wrote (err e, rest) = ((err (request_error e), []), rest)
  served wrote (panic, rest) = ((panic, []), rest)

  unfoldable pub serve_one : Bool → Feed → (Result ServeError Bool × Bytes) × Feed
  unfolding read_request respond response_bytes
  serve_one wrote feed = served wrote (read_request feed)

  abbrev pub next_round : (Feed → Bytes) → (Result ServeError Bool × Bytes) × Feed → Bytes
  next_round more ((ok true, written), rest) = written ++ more rest
  next_round more ((ending, written), rest) = written

  -- The loop, for as many rounds as these writes are told of: what it writes.
  unfoldable pub serve : List Bool → Feed → Bytes
  unfolding serve_one
  serve [] feed = []
  serve (wrote ∷ writes) feed = next_round (λ rest. serve writes rest) (serve_one wrote feed)
