-- ===== src/Owner/Paths.antt =====
-- owner.rs: the keys under which a file's definitions can be imported. A worktree-relative path is
-- the list of its components, all names in UTF-8, the last the file name.
use xgraph.Prelude.{
  ◌-◌, leb, Bool, ◌&&◌, ◌||◌, Option, none, some, List, [], ◌∷◌, ◌++◌, length, drop, take,
  if◌then◌else◌, ◌==◌, is_empty, nat_key,
}
use xgraph.Text.{Text, text, text_key}
use xgraph.Imports.Python.{RelPath, parent}

-- the parts with a text between them
unfoldable pub join_with : Text → List Text → Text
join_with separator [] = []
join_with separator (s ∷ []) = s
join_with separator (s ∷ t ∷ rest) = s ++ separator ++ join_with separator (t ∷ rest)

-- the text before the last dot
unfoldable pub before_last_dot : Text → Option Text
before_last_dot [] = none
before_last_dot (c ∷ s) = elim (before_last_dot s) [
  | some b ↦ some (c ∷ b)
  | none ↦ if c == b'.' then some [] else none
]

-- `Path::file_stem` of a file name: a dot at its start does not count
unfoldable pub file_stem : Text → Text
unfolding before_last_dot
file_stem [] = []
file_stem (c ∷ s) = elim (before_last_dot s) [ none ↦ c ∷ s | some b ↦ c ∷ b ]

-- `path.with_extension("")`
unfoldable pub without_extension : RelPath → RelPath
unfolding file_stem
without_extension [] = []
without_extension (name ∷ []) = file_stem name ∷ []
without_extension (dir ∷ c ∷ rest) = dir ∷ without_extension (c ∷ rest)

-- `path.file_name()`
unfoldable pub file_name : RelPath → Option Text
file_name [] = none
file_name (name ∷ []) = some name
file_name (dir ∷ c ∷ rest) = file_name (c ∷ rest)

unfoldable pub normalize_path_components : RelPath → Text
unfolding join_with
normalize_path_components path = join_with (text "/") path

unfoldable pub js_path_key : RelPath → Text
unfolding join_with without_extension
js_path_key relative = join_with (text "/") (without_extension relative)

-- `path_key.strip_suffix("/index")`
unfoldable pub strip_index_suffix : Text → Option Text
strip_index_suffix key =
    let n = length key - length (text "/index") in
    if leb (length (text "/index")) (length key) && drop n key == text "/index"
    then some (take n key)
    else none

unfoldable pub js_local_symbol_key : Text → Text → Text
js_local_symbol_key path_prefix name = path_prefix ++ text "#local#" ++ name

-- the module of a directory and a file's stem; `index` stems stand for the directory
unfoldable pub dotted : Text → Bool → RelPath → Text → Option Text
unfolding join_with
dotted separator for_directory dir stem =
    let parts = if for_directory then dir else dir ++ stem ∷ [] in
    if is_empty parts then none else some (join_with separator parts)

unfoldable pub python_module_path : RelPath → Option Text
unfolding file_name file_stem parent dotted
python_module_path relative = elim (file_name relative) [
  | none ↦ none
  | some name ↦
      let stem = file_stem name in
      elim (parent relative) [
        | none ↦ none
        | some dir ↦ dotted (text ".") (stem == text "__init__") dir stem
      ]
]

unfoldable pub go_package_path : RelPath → Text
unfolding parent normalize_path_components
go_package_path relative = elim (parent relative) [
  | none ↦ []
  | some dir ↦ normalize_path_components dir
]

-- `relative.strip_prefix("src")`, or the path itself
unfoldable pub strip_src : RelPath → RelPath
strip_src [] = []
strip_src (c ∷ rest) = if c == text "src" then rest else c ∷ rest

unfoldable pub rust_module_path : RelPath → Option Text
unfolding strip_src file_name file_stem parent dotted
rust_module_path relative =
    let rel = strip_src relative in
    elim (file_name rel) [
      | none ↦ none
      | some name ↦
          let stem = file_stem name in
          let crate_or_directory =
            stem == text "lib" || stem == text "main" || stem == text "mod" in
          elim (parent rel) [
            | none ↦ none
            | some dir ↦ dotted (text "::") crate_or_directory dir stem
          ]
    ]
