-- ===== src/Config/ParentDir/Missed.antt =====
-- Which directories `ensureParentDir` makes (src/common/config.cpp).
use cppvless.Common.{ℕ, ◌<◌, ◌≡◌, ◌⊎◌, true, List, Bytes, All, is_empty, length}
use cppvless.Config.ParentDir.{ends_slash}

abbrev Shorter : ℕ → List Bytes → Type 0
Shorter n = All (λ d. length d < n)

abbrev IsPart : Bytes → Type 0
IsPart cur = (is_empty cur ≡ true) ⊎ (ends_slash cur ≡ true)
