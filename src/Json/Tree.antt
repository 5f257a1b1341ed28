-- ===== src/Json/Tree.antt =====
-- JSON texts as trees, and the text of a tree: the compact form that mocktracer/src/json.cpp writes. A
-- number is its text.
use opentracing_cpp.Base.{Bool, true, false, [], ◌∷◌, ◌++◌, Bytes, codes, if◌then◌else◌}
use opentracing_cpp.Json.Escape.{escape_all}

mutual
  pub data Json : Type 0 where
    null : Json
    bool : Bool → Json
    number : Bytes → Json
    text : Bytes → Json
    array : Items → Json
    object : Members → Json

  pub data Items : Type 0 where
    no_items : Items
    item : Json → Items → Items

  pub data Members : Type 0 where
    no_members : Members
    member : Bytes → Json → Members → Members

unfoldable pub show_text : Bytes → Bytes
show_text s = b'"' ∷ (escape_all s ++ b'"' ∷ [])

-- What stands in front of an element: nothing before the first, and then a comma.
abbrev pub separator : Bool → Bytes
separator first = if first then [] else codes ","

unfoldable mutual
  pub show : Json → Bytes
  show null = codes "null"
  show (bool b) = if b then codes "true" else codes "false"
  show (number digits) = digits
  show (text s) = show_text s
  show (array items) = b'[' ∷ show_items true items
  show (object members) = b'{' ∷ show_members true members

  pub show_items : Bool → Items → Bytes
  show_items first no_items = codes "]"
  show_items first (item v items) = separator first ++ (show v ++ show_items false items)

  pub show_members : Bool → Members → Bytes
  show_members first no_members = codes "}"
  show_members first (member k v members) =
      separator first ++ (show_text k ++ (b':' ∷ (show v ++ show_members false members)))
