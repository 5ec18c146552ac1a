-- ===== src/Scanner.antt =====
-- scanner.rs: the language of a scanned file.
pub mod Agreement
use xgraph.Prelude.{
  ℕ, ◌-◌, leb, Bool, true, false, ◌&&◌, ◌||◌, Option, none, some, List, [], ◌∷◌, length, drop,
  if◌then◌else◌, ◌==◌,
}
use xgraph.Text.{Text, text, text_key, lower}
use xgraph.Language.{extension}

pub data DetectedLanguage : Type 0 where
  php blade java_script type_script tsx python go rust : DetectedLanguage

-- `str::ends_with`
unfoldable pub ends_with : Text → Text → Bool
ends_with s suffix = leb (length suffix) (length s) && drop (length s - length suffix) s == suffix

unfoldable pub language_of : Text → Option DetectedLanguage
language_of ext =
    if ext == text "php"
    then some php
    else if ext == text "js" || ext == text "cjs" || ext == text "mjs"
    then some java_script
    else if ext == text "ts"
    then some type_script
    else if ext == text "tsx"
    then some tsx
    else if ext == text "py"
    then some python
    else if ext == text "go"
    then some go
    else if ext == text "rs"
    then some rust
    else none

-- from the file name of a path, if there is one and it is UTF-8
unfoldable pub detect_language : Option Text → Option DetectedLanguage
unfolding ends_with extension language_of lower
detect_language none = none
detect_language (some name) =
    if ends_with (lower name) (text ".blade.php")
    then some blade
    else elim (extension (lower name)) [ none ↦ none | some ext ↦ language_of ext ]

-- `path` is the list of the components
pub record ScannedFile : Type 0 where
  pub path : List Text
  pub language : Option DetectedLanguage
  pub content_hash : List ℕ
  pub mtime : ℕ
  pub size : ℕ
