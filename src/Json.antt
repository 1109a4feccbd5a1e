-- ===== src/Json.antt =====
-- Values that `JSON.parse` gives. A number that is whole is kept with its value; of any other only
-- its identity is kept, since the program refuses it or passes it on unread.
use etkin_link.Base.{ℕ, Bool, List, [], ◌∷◌, Option, none, some, if◌then◌else◌}
use etkin_link.Int.{ℤ}
use etkin_link.Text.{Str, str_eq}

mutual
  pub data Json : Type 0 where
    null : Json
    bool : Bool → Json
    int : ℤ → Json
    fraction : ℕ → Json
    str : Str → Json
    arr : Items → Json
    obj : Fields → Json

  pub data Items : Type 0 where
    nil : Items
    cons : Json → Items → Items

  -- The own enumerable properties, in order, each key once.
  pub data Fields : Type 0 where
    end : Fields
    field : Str → Json → Fields → Fields

abbrev pub elems : Items → List Json
elems nil = []
elems (cons v vs) = v ∷ elems vs

-- `Object.keys(value)`
abbrev pub keys : Fields → List Str
keys end = []
keys (field k v fs) = k ∷ keys fs

-- `record.k`; `none` is `undefined`.
unfoldable pub member : Str → Fields → Option Json
unfolding str_eq
member k end = none
member k (field j v fs) = if str_eq j k then some v else member k fs
