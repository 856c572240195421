-- ===== src/StaticHttp/Answers/Framing.antt =====
-- The body that a response has, and what its header says of it.
use meshly_core.Common.{
  ℕ, ◌≡◌, refl, ◌≢◌, ◌⊎◌, inl, inr, Bool, true, false, not, Option, none, some, [], if◌then◌else◌,
  nat_eq, list_eq, length, Result, ok, err, panic, ◌>>=◌, reject_if, ok_or, >>=-ne-panic, Bytes,
  Text, text,
}
use meshly_core.Common.Map.{get}
use meshly_core.Common.Strings.{decimal}
use meshly_core.StaticHttp.{
  StaticSpec, Request, Response, Disk, error_response, is_head, before, relative,
}
use meshly_core.StaticHttp.Percent.{percent_decode}
use meshly_core.StaticHttp.Answers.{
  sent_body, success, list_directory, send_file, allowed, build_response, reported, respond,
}
use meshly_core.StaticHttp.Answers.Confined.{Served, FromFile, FromDirectory, build_response-Served}

-- The header counts the bytes of some content, which is the body that follows unless the method is HEAD.
pub record Framed (method : Text) (r : Response) : Type 0 where
  pub content : Bytes
  pub counted : get (text "Content-Length") r.headers ≡ some (decimal (length content))
  pub follows : r.body ≡ sent_body method content

success-Framed :
    (content_type : Text) (req : Request) (body : Bytes)
    → Framed req.method (success content_type req body)
unfolding get
success-Framed content_type req body = record { content = body; counted = refl; follows = refl }

error-Framed :
    (status : ℕ) (method : Text) (keep_alive : Bool)
    → Framed method (error_response status method keep_alive)
unfolding error_response get
error-Framed status method keep_alive = record {
  content = (error_response status method keep_alive).body;
  counted = refl;
  follows = headless_body (is_head method) _;
}
  where
    headless_body :
        (b : Bool) (body : Bytes)
        → (if b then [] else body) ≡ (if b then [] else (if b then [] else body))
    headless_body true body = refl
    headless_body false body = refl

-- The same answer without its body.
abbrev pub headless : Result ℕ Response → Result ℕ Response
headless (ok r) = ok (record r { body = [] })
headless (err status) = err status
headless panic = panic

bind-headless :
    {A : Type 0} (m : Result ℕ A) (f g : A → Result ℕ Response)
    → ((a : A) → f a ≡ headless (g a))
    → (m >>= f) ≡ headless (m >>= g)
bind-headless (ok a) f g h = h a
bind-headless (err e) f g h = refl
bind-headless panic f g h = refl

reject_if-calm : (b : Bool) (status : ℕ) → reject_if b status ≢ panic
reject_if-calm true status = λ h. cc h
reject_if-calm false status = λ h. cc h

ok_or-calm : {A : Type 0} (o : Option A) (status : ℕ) → ok_or o status ≢ panic
ok_or-calm none status = λ h. cc h
ok_or-calm (some a) status = λ h. cc h

module _ {FilePath : Type 0} (disk : Disk FilePath) (render : FilePath → FilePath → Option Bytes)
    (spec : StaticSpec FilePath) where
  abbrev pub with_method : Text → Request → Request
  with_method method req = record req { method = method }

  -- A HEAD request is answered as the GET request for the same path, the length in the header included,
  -- but without the body; and is an error exactly when that is, with the same status.
  pub head-get :
      (req : Request)
      → build_response disk render spec (with_method (text "HEAD") req)
        ≡ headless (build_response disk render spec (with_method (text "GET") req))
  unfolding build_response
  head-get req =
      bind-headless (ok_or (percent_decode (before 35 (before 63 req.path))) 400) _ _ (λ decoded.
        bind-headless (ok_or (disk.canonicalize spec.root_dir) 500) _ _ (λ root.
          bind-headless (ok_or (disk.canonicalize (disk.join root (relative decoded))) 404) _ _
            (λ target.
              bind-headless (reject_if (not (disk.starts_with target root)) 403) _ _ (λ done.
                bind-headless (ok_or (disk.is_dir target) 404) _ _
                  (λ is_dir. chosen root target is_dir)))))
    where
      chosen :
          (root target : FilePath) (is_dir : Bool)
          → (if is_dir
              then list_directory disk render spec (with_method (text "HEAD") req) root target
              else send_file disk render spec (with_method (text "HEAD") req) target)
            ≡ headless (
                if is_dir
                then list_directory disk render spec (with_method (text "GET") req) root target
                else send_file disk render spec (with_method (text "GET") req) target)
      chosen root target true =
          bind-headless (reject_if (not spec.allow_directory_listing) 403) _ _
            (λ done. bind-headless (ok_or (render root target) 500) _ _ (λ body. refl))
      chosen root target false = bind-headless (ok_or (disk.read target) 404) _ _ (λ body. refl)

  build_response-calm : (req : Request) → build_response disk render spec req ≢ panic
  unfolding build_response
  build_response-calm req =
      >>=-ne-panic (reject_if (not (allowed disk render spec req.method)) 405) _
        (reject_if-calm _ 405)
        (λ a q.
          >>=-ne-panic (ok_or (percent_decode (before 35 (before 63 req.path))) 400) _
            (ok_or-calm _ 400)
            (λ decoded q1.
              >>=-ne-panic (ok_or (disk.canonicalize spec.root_dir) 500) _ (ok_or-calm _ 500)
                (λ root q2.
                  >>=-ne-panic (ok_or (disk.canonicalize (disk.join root (relative decoded))) 404) _
                    (ok_or-calm _ 404)
                    (λ target q3.
                      >>=-ne-panic (reject_if (not (disk.starts_with target root)) 403) _
                        (reject_if-calm _ 403)
                        (λ b q4.
                          >>=-ne-panic (ok_or (disk.is_dir target) 404) _ (ok_or-calm _ 404)
                            (λ is_dir q5. chosen root target is_dir))))))
    where
      chosen :
          (root target : FilePath) (is_dir : Bool)
          → (if is_dir
              then list_directory disk render spec req root target
              else send_file disk render spec req target)
            ≢ panic
      chosen root target true =
          >>=-ne-panic (reject_if (not spec.allow_directory_listing) 403) _ (reject_if-calm _ 403)
            (λ done q.
              >>=-ne-panic (ok_or (render root target) 500) _ (ok_or-calm _ 500)
                (λ body q1. λ h. cc h))
      chosen root target false =
          >>=-ne-panic (ok_or (disk.read target) 404) _ (ok_or-calm _ 404) (λ body q. λ h. cc h)

  Served-Framed :
      (req : Request) (r : Response) → Served disk render spec req r → Framed req.method r
  Served-Framed req r s = go s.source
    where
      go :
          FromFile disk render spec req s.target r
            ⊎ FromDirectory disk render spec req s.root s.target r
          → Framed req.method r
      go (inl f) = rw f.answer (success-Framed _ req f.content)
      go (inr d) = rw d.answer (success-Framed _ req d.page)

  -- Every request that could be read gets an answer, an error being an answer too, whose header counts the
  -- bytes of some content: the body is that content, or empty when the method is HEAD.
  pub respond-Framed :
      (req : Request) → (r : Response) × (respond disk render spec req ≡ ok r) × Framed req.method r
  unfolding respond
  respond-Framed req =
      go (build_response disk render spec req) (build_response-calm req)
        (build_response-Served disk render spec req)
    where
      go :
          (b : Result ℕ Response)
          → b ≢ panic
          → ((r : Response) → b ≡ ok r → Served disk render spec req r)
          → (r : Response) × (reported disk render spec req b ≡ ok r) × Framed req.method r
      go (ok r) calm served = (r, refl, Served-Framed req r (served r refl))
      go (err status) calm served = (
        error_response status req.method req.keep_alive,
        refl,
        error-Framed status req.method req.keep_alive,
      )
      go panic calm served = absurd (calm refl)
