-- ===== src/StaticHttp/Answers/Confined.antt =====
-- Where what is served lies.
use meshly_core.Common.{
  ◌≡◌, sym, ◌⊎◌, inl, inr, Bool, true, false, not, Option, none, some, if◌then◌else◌, nat_eq,
  list_eq, ok, ok_or, >>=-eq-ok, reject_if-passed, not-false, ok_injective, Bytes, Text, text,
}
use meshly_core.StaticHttp.{
  StaticSpec, Request, Response, Disk, guess_content_type, before, relative,
}
use meshly_core.StaticHttp.Percent.{percent_decode}
use meshly_core.StaticHttp.Answers.{success, list_directory, send_file, allowed, build_response}

module _ {FilePath : Type 0} (disk : Disk FilePath) (render : FilePath → FilePath → Option Bytes)
    (spec : StaticSpec FilePath) (req : Request) where
  -- Where the body of a successful answer comes from.
  pub record FromFile (target : FilePath) (r : Response) : Type 0 where
    pub file : disk.is_dir target ≡ some false
    pub content : Bytes
    pub was_read : disk.read target ≡ some content
    pub answer : r ≡ success (guess_content_type (disk.extension target)) req content

  pub record FromDirectory (root target : FilePath) (r : Response) : Type 0 where
    pub listed : spec.allow_directory_listing ≡ true
    pub directory : disk.is_dir target ≡ some true
    pub page : Bytes
    pub rendered : render root target ≡ some page
    pub answer : r ≡ success (text "text/html; charset=utf-8") req page

  -- What a successful answer owes to the file system.
  pub record Served (r : Response) : Type 0 where
    pub method : allowed disk render spec req.method ≡ true
    pub decoded : Text
    pub path : percent_decode (before 35 (before 63 req.path)) ≡ some decoded
    pub root : FilePath
    pub target : FilePath
    pub root_is : disk.canonicalize spec.root_dir ≡ some root
    pub target_is : disk.canonicalize (disk.join root (relative decoded)) ≡ some target
    pub inside : disk.starts_with target root ≡ true
    pub source : FromFile target r ⊎ FromDirectory root target r

  given : {A E : Type 0} (o : Option A) (e : E) (a : A) → ok_or o e ≡ ok a → o ≡ some a
  given none e a h = cc h
  given (some x) e a h = cc h

  from_file :
      (target : FilePath) (r : Response)
      → disk.is_dir target ≡ some false
      → send_file disk render spec req target ≡ ok r
      → FromFile target r
  from_file target r file h =
      let (body, was_read, answer) = >>=-eq-ok (ok_or (disk.read target) 404) _ h in
      record {
        file = file;
        content = body;
        was_read = given (disk.read target) 404 body was_read;
        answer = sym (ok_injective answer);
      }

  from_directory :
      (root target : FilePath) (r : Response)
      → disk.is_dir target ≡ some true
      → list_directory disk render spec req root target ≡ ok r
      → FromDirectory root target r
  from_directory root target r is_dir h =
      let (open_to, rest) = reject_if-passed (not spec.allow_directory_listing) 403 _ h in
      let (body, rendered, answer) = >>=-eq-ok (ok_or (render root target) 500) _ rest in
      record {
        listed = not-false spec.allow_directory_listing open_to;
        directory = is_dir;
        page = body;
        rendered = given (render root target) 500 body rendered;
        answer = sym (ok_injective answer);
      }

  -- A successful answer is read from a file, or made from a directory where the service lists directories,
  -- whose canonical path starts with the canonical root, and which the decoded path of the request
  -- names below that root; and the method is GET or HEAD.
  pub build_response-Served : (r : Response) → build_response disk render spec req ≡ ok r → Served r
  unfolding build_response
  build_response-Served r h =
      let (method, h1) = reject_if-passed (not (allowed disk render spec req.method)) 405 _ h in
      let (decoded, path, h2) =
        >>=-eq-ok (ok_or (percent_decode (before 35 (before 63 req.path))) 400) _ h1 in
      let (root, root_is, h3) = >>=-eq-ok (ok_or (disk.canonicalize spec.root_dir) 500) _ h2 in
      let (target, target_is, h4) =
        >>=-eq-ok (ok_or (disk.canonicalize (disk.join root (relative decoded))) 404) _ h3 in
      let (inside, h5) = reject_if-passed (not (disk.starts_with target root)) 403 _ h4 in
      let (is_dir, known, h6) = >>=-eq-ok (ok_or (disk.is_dir target) 404) _ h5 in
      record {
        method = not-false (allowed disk render spec req.method) method;
        decoded = decoded;
        path = given (percent_decode (before 35 (before 63 req.path))) 400 decoded path;
        root = root;
        target = target;
        root_is = given (disk.canonicalize spec.root_dir) 500 root root_is;
        target_is =
            given (disk.canonicalize (disk.join root (relative decoded))) 404 target target_is;
        inside = not-false (disk.starts_with target root) inside;
        source = source root target is_dir (given (disk.is_dir target) 404 is_dir known) h6;
      }
    where
      source :
          (root target : FilePath) (is_dir : Bool)
          → disk.is_dir target ≡ some is_dir
          → (if is_dir
              then list_directory disk render spec req root target
              else send_file disk render spec req target)
            ≡ ok r
          → FromFile target r ⊎ FromDirectory root target r
      source root target true known h = inr (from_directory root target r known h)
      source root target false known h = inl (from_file target r known h)
