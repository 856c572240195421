-- ===== src/StaticHttp/Listing.antt =====
-- The rows of the page that lists a directory, and the escaping in them: parts of
-- `render_directory_listing`, and `html_escape`, of crates/client/src/static_http.rs.
pub mod Inert
use meshly_core.Common.{
  ℕ, ◌*◌, Bool, ◌&&◌, [], ◌∷◌, ◌++◌, arith, ltb, nat_beq, if◌then◌else◌, nat_eq, list_eq, ok, err,
  panic, Text, text,
}
use meshly_core.Common.Strings.{decimal}

-- What a character of a name is written as.
abbrev pub entity : ℕ → Text
entity c =
    if nat_beq c 38
    then text "&amp;"
    else if nat_beq c 60
    then text "&lt;"
    else if nat_beq c 62
    then text "&gt;"
    else if nat_beq c 34
    then text "&quot;"
    else if nat_beq c 39
    then text "&#39;"
    else c ∷ []

unfoldable pub html_escape : Text → Text
html_escape [] = []
html_escape (c ∷ cs) = entity c ++ html_escape cs

-- `replace("..", "")`
unfoldable pub without_dots : Text → Text
without_dots [] = []
without_dots (x ∷ []) = x ∷ []
without_dots (x ∷ y ∷ rest) =
    let skipped = without_dots rest in
    let kept = x ∷ without_dots (y ∷ rest) in if nat_beq x 46 && nat_beq y 46 then skipped else kept

-- One entry of a directory: `href` is its path below the root, as text.
pub record Entry : Type 0 where
  pub name : Text
  pub is_dir : Bool
  pub size : ℕ
  pub href : Text

-- `{:.1}` of the quotient is the formatting of an `f64`.
module _ (one_decimal : ℕ → ℕ → Text) where
  abbrev pub size_text : Entry → Text
  size_text entry =
      if entry.is_dir
      then 226 ∷ 128 ∷ 148 ∷ []
      else if ltb entry.size 1024
      then decimal entry.size ++ text " B"
      else if ltb entry.size (1024 * 1024)
      then one_decimal entry.size 1024 ++ text " KB"
      else one_decimal entry.size (1024 * 1024) ++ text " MB"

  abbrev pub display_name : Entry → Text
  display_name entry = if entry.is_dir then entry.name ++ text "/" else entry.name

  unfoldable pub row : Entry → Text
  unfolding html_escape without_dots decimal
  row entry =
      text "<tr><td><a href=\""
      ++ (html_escape (without_dots entry.href)
          ++ (text "\">"
              ++ (html_escape (display_name entry)
                  ++ (text "</a></td><td class=\"size\">"
                      ++ (size_text entry ++ text "</td></tr>")))))
