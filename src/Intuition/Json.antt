-- ===== src/Intuition/Json.antt =====
-- JSON values as `serde_json` keeps them, and their order of keys: `sort_value` and `fingerprint_hex`
-- of crates/talaria-intuition/src/canon.rs. The text of a value and its SHA-256 are the parameter
-- `digest`.
use talaria_v.Base.{Bool, ℤ, Option, none, some, if◌then◌else◌}
use talaria_v.Text.{Text, text_eq}
use talaria_v.Identity.{text_le}

mutual
  pub data Json : Type 0 where
    null : Json
    boolean : Bool → Json
    number : ℤ → Json
    string : Text → Json
    array : Items → Json
    object : Entries → Json

  pub data Items : Type 0 where
    nil : Items
    cons : Json → Items → Items

  pub data Entries : Type 0 where
    end : Entries
    entry : Text → Json → Entries → Entries

-- `Map::insert` on a map whose keys ascend.
unfoldable pub insert_key : Text → Json → Entries → Entries
insert_key k v end = entry k v end
insert_key k v (entry l w es) =
    let rest = insert_key k v es in
    if text_eq k l
    then entry k v es
    else if text_le k l
    then entry k v (entry l w es)
    else entry l w rest

-- The keys of a map are distinct, so each entry is what `map.get` finds for its key.
unfoldable mutual
  unfolding insert_key

  pub sort_value : Json → Json
  sort_value null = null
  sort_value (boolean b) = boolean b
  sort_value (number n) = number n
  sort_value (string s) = string s
  sort_value (array xs) = array (sort_items xs)
  sort_value (object es) = object (sort_entries es)

  pub sort_items : Items → Items
  sort_items nil = nil
  sort_items (cons x xs) = cons (sort_value x) (sort_items xs)

  pub sort_entries : Entries → Entries
  sort_entries end = end
  sort_entries (entry k v es) = insert_key k (sort_value v) (sort_entries es)

unfoldable pub fingerprint_hex : (Json → Text) → Json → Text
unfolding sort_value
fingerprint_hex digest payload = digest (sort_value payload)

-- `json!` of an optional text.
abbrev pub json_option : Option Text → Json
json_option none = null
json_option (some s) = string s
