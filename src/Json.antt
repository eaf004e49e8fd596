-- ===== src/Json.antt =====
-- The values of JSON and `undefined`, as dataJson and the settings of a field hold them. A number is
-- of a type `N` of the arithmetic that the language brings.
use nocode_app.Base.{Text, text_eq, Bool, ℕ, suc, List, [], ◌∷◌, if◌then◌else◌}

mutual
  pub data Json (N : Type 0) : Type 0 where
    undefined null : Json N
    bool : Bool → Json N
    number : N → Json N
    string : Text → Json N
    array : Items N → Json N
    object : Members N → Json N

  pub data Items (N : Type 0) : Type 0 where
    nil : Items N
    item : Json N → Items N → Items N

  -- The own properties of an object in their order; no key stands twice.
  pub data Members (N : Type 0) : Type 0 where
    end : Members N
    member : Text → Json N → Members N → Members N

module _ {N : Type 0} where
  -- `o[key]`
  unfoldable pub get : Members N → Text → Json N
  get end key = undefined
  get (member k v o) key = if text_eq k key then v else get o key

  -- `a.length`
  abbrev pub count : Items N → ℕ
  count nil = 0
  count (item v vs) = suc (count vs)

  abbrev pub items : Items N → List (Json N)
  items nil = []
  items (item v vs) = v ∷ items vs

  abbrev pub to_items : List (Json N) → Items N
  to_items [] = nil
  to_items (v ∷ vs) = item v (to_items vs)

  -- `v?.[key]` on a value that is an object; other values have none of the keys that the callers name.
  abbrev pub prop : Json N → Text → Json N
  prop (object o) key = get o key
  prop v key = undefined
