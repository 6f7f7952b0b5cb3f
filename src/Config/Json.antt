-- ===== src/Config/Json.antt =====
-- `Json` of src/common/config.cpp: the values, and how the loader looks at them.
pub mod Number
pub mod Text
pub mod Parser
pub mod Termination
use cppvless.Common.{Bool, List, [], ◌∷◌, Bytes, equal, if◌then◌else◌, Option, none, some}
use cppvless.Common.Int.{ℤ}

-- Of a number the program only uses `asInt`, so a number holds that.
mutual
  pub data Json : Type 0 where
    null : Json
    bool : Bool → Json
    number : ℤ → Json
    string : Bytes → Json
    array : Items → Json
    object : Fields → Json

  pub data Items : Type 0 where
    no_items : Items
    item : Json → Items → Items

  pub data Fields : Type 0 where
    no_fields : Fields
    field : Bytes → Json → Fields → Fields

-- The first entry of the key.
unfoldable pub find : Bytes → Fields → Option Json
find key no_fields = none
find key (field k v fs) = if equal k key then some v else find key fs

-- Only an object has entries.
unfoldable pub get : Bytes → Json → Option Json
unfolding find
get key (object fs) = find key fs
get key _ = none
