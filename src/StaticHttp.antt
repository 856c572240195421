-- ===== src/StaticHttp.antt =====
-- The static file service of crates/client/src/static_http.rs: its answers to a request. The children have
-- the bytes that it reads and the page that lists a directory.
pub mod Percent
pub mod Feed
pub mod Parse
pub mod Answers
pub mod Serve
pub mod Listing
mod Tests
use mathlib.Core.Option
use meshly_core.Common.{
  ℕ, Bool, true, false, ◌||◌, Option, none, some, List, [], ◌∷◌, ◌++◌, arith, nat_beq,
  if◌then◌else◌, ◌==◌, nat_eq, list_eq, length, ok, err, panic, Bytes, Text, text,
}
use meshly_core.Common.Map.{get}
use meshly_core.Common.Strings.{decimal}

pub record StaticSpec (FilePath : Type 0) : Type 0 where
  pub name : Text
  pub root_dir : FilePath
  pub allow_directory_listing : Bool

pub record Request : Type 0 where
  pub method : Text
  pub path : Text
  pub keep_alive : Bool

pub record Response : Type 0 where
  pub status : ℕ
  pub status_text : Text
  pub headers : List (Text × Text)
  pub body : Bytes

-- The file system, and the paths of `std::path`: `none` where a call fails.
pub record Disk (FilePath : Type 0) : Type 0 where
  pub canonicalize : FilePath → Option FilePath
  pub join : FilePath → Text → FilePath
  pub starts_with : FilePath → FilePath → Bool
  pub is_dir : FilePath → Option Bool
  pub read : FilePath → Option Bytes
  pub extension : FilePath → Option Text

abbrev pub or_else : Option Text → Text → Text
or_else none other = other
or_else (some t) other = t

abbrev reason_phrases : List (ℕ × Text)
reason_phrases =
    (400, text "Bad Request")
    ∷ (403, text "Forbidden")
    ∷ (404, text "Not Found")
    ∷ (405, text "Method Not Allowed")
    ∷ (500, text "Internal Server Error")
    ∷ []

abbrev body_texts : List (ℕ × Text)
body_texts =
    (400, text "400 Bad Request")
    ∷ (403, text "403 Forbidden")
    ∷ (404, text "404 Not Found")
    ∷ (405, text "405 Method Not Allowed")
    ∷ (500, text "500 Internal Server Error")
    ∷ []

abbrev pub connection_header : Bool → Text
connection_header keep_alive = if keep_alive then text "keep-alive" else text "close"

abbrev pub headers_of : Text → ℕ → Bool → List (Text × Text)
headers_of content_type advertised_len keep_alive =
    (text "Content-Type", content_type)
    ∷ (text "Content-Length", decimal advertised_len)
    ∷ (text "Connection", connection_header keep_alive)
    ∷ []

abbrev pub is_head : Text → Bool
is_head method = method == text "HEAD"

unfoldable pub error_response : ℕ → Text → Bool → Response
unfolding decimal get
error_response status method keep_alive =
    let body =
      if is_head method then [] else or_else (get status body_texts) (text "Error") ++ (10 ∷ []) in
    record {
      status = status;
      status_text = or_else (get status reason_phrases) (text "Error");
      headers = headers_of (text "text/plain; charset=utf-8") (length body) keep_alive;
      body = body;
    }

-- The extensions and their types.
abbrev content_types : List (Text × Text)
content_types =
    (text "html", text "text/html; charset=utf-8")
    ∷ (text "htm", text "text/html; charset=utf-8")
    ∷ (text "css", text "text/css; charset=utf-8")
    ∷ (text "js", text "application/javascript; charset=utf-8")
    ∷ (text "mjs", text "application/javascript; charset=utf-8")
    ∷ (text "json", text "application/json; charset=utf-8")
    ∷ (text "txt", text "text/plain; charset=utf-8")
    ∷ (text "md", text "text/plain; charset=utf-8")
    ∷ (text "png", text "image/png")
    ∷ (text "jpg", text "image/jpeg")
    ∷ (text "jpeg", text "image/jpeg")
    ∷ (text "gif", text "image/gif")
    ∷ (text "svg", text "image/svg+xml")
    ∷ (text "ico", text "image/x-icon")
    ∷ (text "pdf", text "application/pdf")
    ∷ (text "zip", text "application/zip")
    ∷ (text "wasm", text "application/wasm")
    ∷ []

unfoldable pub guess_content_type : Option Text → Text
unfolding get
guess_content_type none = text "application/octet-stream"
guess_content_type (some ext) = or_else (get ext content_types) (text "application/octet-stream")

-- `s.split(c).next()`
abbrev pub before : ℕ → Text → Text
before c [] = []
before c (x ∷ xs) = if nat_beq x c then [] else x ∷ before c xs

abbrev pub trim_slashes : Text → Text
trim_slashes [] = []
trim_slashes (x ∷ xs) = if nat_beq x 47 then trim_slashes xs else x ∷ xs

abbrev pub starts_with_slash : Text → Bool
starts_with_slash [] = false
starts_with_slash (x ∷ xs) = nat_beq x 47

abbrev is_empty : Text → Bool
is_empty [] = true
is_empty _ = false

-- `join` of a decoded path to the root.
abbrev pub relative : Text → Text
relative decoded =
    if starts_with_slash decoded || is_empty decoded then trim_slashes decoded else decoded
