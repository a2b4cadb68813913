-- ===== src/Http/Coroutine/Mime.antt =====
-- `mime_type` of httpServerCoro.hpp; Beast's `iequals` is an argument.
use Prim.Native.String.{String}
use mlnsdk.Base.{ℕ, Bool, List, [], ◌∷◌, ◌==◌, if◌then◌else◌}
use mlnsdk.Text.{codes}

-- From the last dot on, or nothing.
unfoldable pub extension : List ℕ → List ℕ
extension [] = []
extension (c ∷ path) = elim (extension path) [
  | [] ↦ if c == b'.' then c ∷ path else []
  | d ∷ ext ↦ d ∷ ext
]

-- The extensions in the order in which they are compared, with the types they stand for.
abbrev pub types : List (String × String)
types =
    (".htm", "text/html")
    ∷ (".html", "text/html")
    ∷ (".php", "text/html")
    ∷ (".css", "text/css")
    ∷ (".txt", "text/plain")
    ∷ (".js", "application/javascript")
    ∷ (".json", "application/json")
    ∷ (".xml", "application/xml")
    ∷ (".swf", "application/x-shockwave-flash")
    ∷ (".flv", "video/x-flv")
    ∷ (".png", "image/png")
    ∷ (".jpe", "image/jpeg")
    ∷ (".jpeg", "image/jpeg")
    ∷ (".jpg", "image/jpeg")
    ∷ (".gif", "image/gif")
    ∷ (".bmp", "image/bmp")
    ∷ (".ico", "image/vnd.microsoft.icon")
    ∷ (".tiff", "image/tiff")
    ∷ (".tif", "image/tiff")
    ∷ (".svg", "image/svg+xml")
    ∷ (".svgz", "image/svg+xml")
    ∷ []

unfoldable pub type_of : (List ℕ → List ℕ → Bool) → List ℕ → List (String × String) → String
type_of iequals ext [] = "application/text"
type_of iequals ext ((e, t) ∷ ts) = if iequals ext (codes e) then t else type_of iequals ext ts

unfoldable pub mime_type : (List ℕ → List ℕ → Bool) → List ℕ → String
mime_type iequals path = type_of iequals (extension path) types
