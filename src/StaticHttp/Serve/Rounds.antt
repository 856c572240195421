-- ===== src/StaticHttp/Serve/Rounds.antt =====
-- From the bytes of a request to the bytes of its answer.
use meshly_core.Common.{
  suc, ◌≤◌, ◌≡◌, refl, ap, ◌∙◌, Bool, true, Option, some, ◌++◌, nat_eq, list_eq, length, All,
  Result, ok, Bytes, Text,
}
use meshly_core.StaticHttp.{StaticSpec, Request, Response, Disk}
use meshly_core.StaticHttp.Feed.{Feed, closed, chunk}
use meshly_core.StaticHttp.Parse.{RequestError, max_request_line, read_request}
use meshly_core.StaticHttp.Parse.Printed.{
  IsGraphic, open_line, request_line, fields, read_request-printed,
}
use meshly_core.StaticHttp.Answers.{respond}
use meshly_core.StaticHttp.Answers.Framing.{Framed, respond-Framed}
use meshly_core.StaticHttp.Serve.{response_bytes, answered, served, serve_one}

module _ {FilePath : Type 0} (disk : Disk FilePath) (render : FilePath → FilePath → Option Bytes)
    (spec : StaticSpec FilePath) where
  served_request :
      (wrote : Bool) (x : Result RequestError (Option Request) × Feed) (req : Request)
      → x.0 ≡ ok (some req)
      → (served disk render spec wrote x).0
        ≡ answered disk render spec wrote req (respond disk render spec req)
  served_request wrote (result, rest) req h = rw h refl

  -- A round on a printed request with a Host header, in one chunk, its line within the limit, writes a
  -- response and asks for another round, whatever the path names: the response is the one of the request
  -- that was printed, and its header counts the bytes of some content, which is its body unless
  -- the method is HEAD.
  pub serve_one-printed :
      (method path : Text)
      → All IsGraphic method
      → All IsGraphic path
      → suc (length (open_line method path)) ≤ max_request_line
      → (r : Response) × (respond disk render spec
            (record { method = method; path = path; keep_alive = true })
          ≡ ok r)
        × Framed method r
        × ((serve_one disk render spec true (chunk (request_line method path ++ fields) closed)).0
            ≡ (ok true, response_bytes r))
  unfolding serve_one
  serve_one-printed method path plain plain' fits =
      let req : Request = record { method = method; path = path; keep_alive = true } in
      let (r, answer, framed) = respond-Framed disk render spec req in
      let was_read = read_request-printed method path plain plain' fits in
      (
        r,
        answer,
        framed,
        served_request true (read_request (chunk (request_line method path ++ fields) closed)) req
              was_read
            ∙ ap (answered disk render spec true req) answer,
      )
