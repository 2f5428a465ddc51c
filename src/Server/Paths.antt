-- ===== src/Server/Paths.antt =====
-- internal/server/server.go: `safeJoin`, which keeps the files that are served below a directory. A
-- path is the list of its components; the functions of path/filepath, for Windows, are written out as
-- far as they are used here, but for two: the comparison of components without case, and the path that
-- the system makes of an absolute one.
pub mod Containment
use smtc_now_playing.Prelude.{
  ℕ, ◌+◌, Bool, true, false, Option, none, some, List, [], ◌∷◌, ◌++◌, map, Text, codes, text_eq,
  ◌==◌, ◌||◌, ◌&&◌, if◌then◌else◌,
}
use smtc_now_playing.Prelude.Tests.{leb}

-- `strings.TrimLeft(rel, "/")`.
unfoldable pub trim_slashes : Text → Text
trim_slashes [] = []
trim_slashes (c ∷ s) = let rest = trim_slashes s in if c == b'/' then rest else c ∷ s

unfoldable pub contains_rune : ℕ → Text → Bool
contains_rune r [] = false
contains_rune r (c ∷ s) = c == r || contains_rune r s

-- The components between the slashes.
abbrev pub push_rune : ℕ → List Text → List Text
push_rune c [] = (c ∷ []) ∷ []
push_rune c (p ∷ ps) = (c ∷ p) ∷ ps

unfoldable pub components : Text → List Text
components [] = [] ∷ []
components (c ∷ s) = if c == b'/' then [] ∷ components s else push_rune c (components s)

abbrev pub dot : Text
dot = codes "."

abbrev pub dot_dot : Text
dot_dot = codes ".."

abbrev pub pop : List Text → List Text
pop [] = []
pop (p ∷ ps) = ps

-- One component after a path that is clean already, whose last component comes first.
abbrev pub enter : Text → List Text → List Text
enter p stack =
    if text_eq p [] || text_eq p dot
    then stack
    else if text_eq p dot_dot
    then pop stack
    else p ∷ stack

-- `filepath.Clean` of an absolute path, behind a part that is clean already.
unfoldable pub clean_onto : List Text → List Text → List Text
clean_onto stack [] = stack
clean_onto stack (p ∷ ps) = clean_onto (enter p stack) ps

-- Whether `filepath.Rel(base, path)` neither is `..` nor begins with it: whether nothing of the base is
-- left when the common components, by `strings.EqualFold`, are cut off.
unfoldable pub below : (Text → Text → Bool) → List Text → List Text → Bool
below equal_fold [] path = true
below equal_fold (b ∷ base) [] = false
below equal_fold (b ∷ base) (p ∷ path) = equal_fold b p && below equal_fold base path

abbrev pub reverse_onto : List Text → List Text → List Text
reverse_onto [] acc = acc
reverse_onto (p ∷ ps) acc = reverse_onto ps (p ∷ acc)

-- `filepath.Join(absBase, filepath.FromSlash(rel))`.
unfoldable pub join : List Text → Text → List Text
join base rel = reverse_onto (clean_onto (reverse_onto base []) (components rel)) []

abbrev pub if_below : (Text → Text → Bool) → List Text → Option (List Text) → Option (List Text)
if_below equal_fold base none = none
if_below equal_fold base (some abs_joined) =
    if below equal_fold base abs_joined then some abs_joined else none

-- `full_path` is `filepath.Abs` of a path that is absolute: what Windows makes of it, if it has no error.
abbrev pub join_below :
    (Text → Text → Bool) → (List Text → Option (List Text)) → List Text → Text → Option (List Text)
join_below equal_fold full_path base rel =
    if contains_rune b'\\' rel then none else if_below equal_fold base (full_path (join base rel))

-- `none` is a refusal; the absolute base is `none` if the base is empty or has no absolute path.
unfoldable pub safe_join :
    (Text → Text → Bool)
    → (List Text → Option (List Text))
    → Option (List Text)
    → Text
    → Option (List Text)
safe_join equal_fold full_path none rel = none
safe_join equal_fold full_path (some base) rel =
    join_below equal_fold full_path base (trim_slashes rel)

-- What is done for a request of a file.
pub data FileReply : Type 0 where
  forbidden : FileReply
  serve_file : List Text → FileReply

abbrev pub file_reply : Option (List Text) → FileReply
file_reply none = forbidden
file_reply (some path) = serve_file path

-- `strings.TrimPrefix`.
abbrev pub trim_prefix : Text → Text → Option Text
trim_prefix [] s = some s
trim_prefix (c ∷ p) [] = none
trim_prefix (c ∷ p) (d ∷ s) = if c == d then trim_prefix p s else none

abbrev or_same : Text → Option Text → Text
or_same s none = s
or_same s (some rest) = rest

-- `handleScript` in the working directory, on the path of the request.
unfoldable pub handle_script :
    (Text → Text → Bool) → (List Text → Option (List Text)) → List Text → Text → FileReply
handle_script equal_fold full_path dir url_path = file_reply (
    safe_join equal_fold full_path (full_path (dir ++ codes "script" ∷ []))
      (or_same url_path (trim_prefix (codes "/script") url_path)))

-- `safeThemePath`, for a theme without backslashes.
unfoldable pub safe_theme_path :
    (Text → Text → Bool)
    → (List Text → Option (List Text))
    → List Text
    → Text
    → Text
    → Option (List Text)
safe_theme_path equal_fold full_path dir theme url_path =
    safe_join equal_fold full_path (full_path (join dir (codes "themes/" ++ theme))) url_path

unfoldable pub handle_theme :
    (Text → Text → Bool) → (List Text → Option (List Text)) → List Text → Text → Text → FileReply
handle_theme equal_fold full_path dir theme url_path =
    file_reply (safe_theme_path equal_fold full_path dir theme url_path)
