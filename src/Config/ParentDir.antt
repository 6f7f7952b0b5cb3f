-- ===== src/Config/ParentDir.antt =====
-- `ensureParentDir` of src/common/config.cpp: the directories that it asks the system to make.
pub mod Missed
use cppvless.Common.{
  ℕ, zero, suc, ◌+◌, ◌<◌, Bool, true, false, not, List, [], ◌∷◌, ◌++◌, Bytes, is_empty, ltb, length,
  take, ◌-◌, ◌==◌, if◌then◌else◌, Option, none, some,
}

-- `find_last_of('/')` and `substr`: what stands in front of the last slash.
unfoldable pub directory : Bytes → Option Bytes
directory [] = none
directory (c ∷ cs) = elim (directory cs) [
  | some dir ↦ some (c ∷ dir)
  | none ↦ if c == b'/' then some [] else none
]

-- The loop over `dir`, with what stands in front of `i`, and `cur`.
unfoldable pub mkdir_loop : Bytes → Bytes → Bytes → List Bytes × Bytes
mkdir_loop front cur [] = ([], cur)
mkdir_loop front cur (c ∷ cs) =
    let (made, last) =
      mkdir_loop (front ++ c ∷ []) (if c == b'/' then front ++ c ∷ [] else cur) cs in
    if c == b'/' then (if is_empty front then made else cur ∷ made, last) else (made, last)

-- `cur.back() == '/'`, for a text that is not empty
unfoldable pub ends_slash : Bytes → Bool
ends_slash [] = false
ends_slash (c ∷ []) = c == b'/'
ends_slash (c ∷ d ∷ cs) = ends_slash (d ∷ cs)

-- What is made behind the loop.
unfoldable pub mkdir_last : Bytes → Bytes → List Bytes
unfolding ends_slash
mkdir_last dir cur =
    if is_empty cur
    then []
    else if not (ends_slash cur)
    then dir ∷ []
    else if ltb 1 (length cur)
    then take (length cur - 1) cur ∷ []
    else []

unfoldable pub mkdirs : Bytes → List Bytes
unfolding mkdir_loop mkdir_last
mkdirs dir =
    let (made, cur) = mkdir_loop [] [] dir in
    if is_empty dir then [] else made ++ mkdir_last dir cur

unfoldable pub made_for : Option Bytes → List Bytes
made_for none = []
made_for (some dir) = mkdirs dir

unfoldable pub ensure_parent_dir : Bytes → List Bytes
unfolding made_for
ensure_parent_dir path = made_for (directory path)
