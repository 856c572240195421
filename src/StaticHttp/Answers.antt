-- ===== src/StaticHttp/Answers.antt =====
-- The response to a request: `build_response`, `serve_one` and `write_response` of
-- crates/client/src/static_http.rs.
pub mod Confined
pub mod Framing
use meshly_core.Common.{
  ◌>>=◌, ◌>>◌, ℕ, Bool, ◌||◌, not, Option, [], arith, if◌then◌else◌, ◌==◌, nat_eq, list_eq, length,
  Result, ok, err, panic, reject_if, ok_or, Bytes, Text, text,
}
use meshly_core.StaticHttp.{
  StaticSpec, Request, Response, Disk, error_response, guess_content_type, headers_of, is_head,
  before, relative,
}
use meshly_core.StaticHttp.Percent.{percent_decode}

abbrev pub sent_body : Text → Bytes → Bytes
sent_body method body = if is_head method then [] else body

-- The two successful answers: a listing and a file.
abbrev pub success : Text → Request → Bytes → Response
success content_type req body = record {
  status = 200;
  status_text = text "OK";
  headers = headers_of content_type (length body) req.keep_alive;
  body = sent_body req.method body;
}

-- An error is the status of the response that reports it. `render` is `render_directory_listing`.
module _ {FilePath : Type 0} (disk : Disk FilePath) (render : FilePath → FilePath → Option Bytes)
    (spec : StaticSpec FilePath) where
  abbrev pub list_directory : Request → FilePath → FilePath → Result ℕ Response
  list_directory req root_canon target = do
    reject_if (not spec.allow_directory_listing) 403
    body ← ok_or (render root_canon target) 500
    ok (success (text "text/html; charset=utf-8") req body)

  abbrev pub send_file : Request → FilePath → Result ℕ Response
  send_file req target = do
    body ← ok_or (disk.read target) 404
    ok (success (guess_content_type (disk.extension target)) req body)

  abbrev pub answer_target : Request → FilePath → FilePath → Result ℕ Response
  answer_target req root_canon target = do
    reject_if (not (disk.starts_with target root_canon)) 403
    is_dir ← ok_or (disk.is_dir target) 404
    if is_dir then list_directory req root_canon target else send_file req target

  abbrev pub allowed : Text → Bool
  allowed method = method == text "GET" || is_head method

  unfoldable pub build_response : Request → Result ℕ Response
  unfolding percent_decode guess_content_type
  build_response req = do
    reject_if (not (allowed req.method)) 405
    let raw_path = before 35 (before 63 req.path)
    url_decoded ← ok_or (percent_decode raw_path) 400
    root_canon ← ok_or (disk.canonicalize spec.root_dir) 500
    target ← ok_or (disk.canonicalize (disk.join root_canon (relative url_decoded))) 404
    answer_target req root_canon target

  -- The response that `serve_one` writes.
  abbrev pub reported : Request → Result ℕ Response → Result ℕ Response
  reported req (ok r) = ok r
  reported req (err status) = ok (error_response status req.method req.keep_alive)
  reported req panic = panic

  unfoldable pub respond : Request → Result ℕ Response
  unfolding build_response error_response
  respond req = reported req (build_response req)
