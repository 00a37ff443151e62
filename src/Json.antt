-- ===== src/Json.antt =====
-- JSON documents as the services hold them: a `dict` is its items in order.
use favl_agentic_content_os.Prelude.{
  ℕ, String, str_eq, Bool, true, false, not, ◌==◌, Option, none, some, List, [], ◌∷◌, if◌then◌else◌,
}

-- `negsuc n` is -(n + 1).
pub data ℤ : Type 0 where
  pos : ℕ → ℤ
  negsuc : ℕ → ℤ

-- `real n` is a float other than 0.0, in thousandths; the code reads only that it is no text.
mutual
  pub data Value : Type 0 where
    null : Value
    bool : Bool → Value
    int : ℤ → Value
    real : ℕ → Value
    str : String → Value
    obj : Fields → Value
    arr : Items → Value

  -- The keys of a dict in the order of their insertion.
  pub data Fields : Type 0 where
    end : Fields
    field : String → Value → Fields → Fields

  pub data Items : Type 0 where
    nil : Items
    cons : Value → Items → Items

-- `d.get(key)`, with `none` for a missing key.
unfoldable pub get : String → Fields → Option Value
get key end = none
get key (field k v fs) = if str_eq k key then some v else get key fs

-- A literal dict, from its items.
abbrev pub dict : List (String × Value) → Fields
dict [] = end
dict ((k, v) ∷ rest) = field k v (dict rest)

abbrev pub nat : ℕ → Value
nat n = int (pos n)

-- A text or None.
abbrev pub str_or_null : Option String → Value
str_or_null none = null
str_or_null (some s) = str s

-- `bool(value)`.
abbrev pub is_truthy : Value → Bool
is_truthy null = false
is_truthy (bool b) = b
is_truthy (int (pos n)) = not (n == 0)
is_truthy (int (negsuc n)) = true
is_truthy (real n) = true
is_truthy (str s) = not (str_eq s "")
is_truthy (arr nil) = false
is_truthy (arr (cons v vs)) = true
is_truthy (obj end) = false
is_truthy (obj (field k v fs)) = true
