-- ===== src/Security/Policy/Parsing.antt =====
-- How security/policy.py reads a connector's configuration: `_positive_int`, `clamp_timeout`,
-- `rejected_operator_keys`, and the preferences that `build_policy` takes.
use favl_agentic_content_os.Prelude.{
  ℕ, ◌+◌, ◌-◌, ◌*◌, ◌/◌, ◌≤◌, ◌<◌, ◌≡◌, refl, min, ◌==◌, String, strip, Bool, true, false, ◌&&◌,
  ◌||◌, Option, none, some, List, [], ◌∷◌, select, arith, if◌then◌else◌,
}
use favl_agentic_content_os.Prelude.Text.{Text, codes, is_digit}
use favl_agentic_content_os.Json.{
  pos, negsuc, Value, null, bool, int, real, str, obj, arr, Fields, end, field, Items, nil, cons,
  get, is_truthy,
}
use favl_agentic_content_os.Security.Ssrf.{OutboundPolicy}
use favl_agentic_content_os.Security.Policy.{Operator, Wanted, build_policy}

-- The digits of `int(text)`, with single underscores between them, in ASCII. `seen` tells that the last
-- character was a digit.
abbrev pub digits : ℕ → Bool → Text → Option ℕ
digits n seen [] = if seen then some n else none
digits n seen (c ∷ s) =
    let rest = digits (if is_digit c then n * 10 + (c - b'0') else n) (is_digit c) s in
    if is_digit c || (c == b'_' && seen) then rest else none

-- A negative number is none here, but -0 is 0.
abbrev pub if_zero : Option ℕ → Option ℕ
if_zero none = none
if_zero (some n) = if n == 0 then some 0 else none

abbrev pub signed : Text → Option ℕ
signed [] = none
signed (c ∷ s) =
    let plain = digits 0 false (c ∷ s) in
    let rest = digits 0 false s in
    if c == b'-' then if_zero rest else if c == b'+' then rest else plain

-- `_positive_int`, of a value or of a missing key; a float of the model is finite.
unfoldable pub positive_int : Option Value → Option ℕ
positive_int none = none
positive_int (some (bool b)) = some (if b then 1 else 0)
positive_int (some (int (pos n))) = some n
positive_int (some (real n)) = some (n / 1000)
positive_int (some (str s)) = signed (codes (strip s))
positive_int (some other) = none

-- What `float(value)` gives, in thousandths: an exception, a number that is not finite, one that is 0 or
-- less, or a positive one.
pub data Float : Type 0 where
  unparsable not_finite not_positive : Float
  positive : ℕ → Float

-- The reading of a text is a parameter; an integer is in the range of floats.
abbrev pub float_of : (String → Float) → Option Value → Float
float_of of_text none = unparsable
float_of of_text (some (bool b)) = if b then positive 1000 else not_positive
float_of of_text (some (int (pos n))) = if n == 0 then not_positive else positive (n * 1000)
float_of of_text (some (int (negsuc n))) = not_positive
float_of of_text (some (real n)) = if n == 0 then not_positive else positive n
float_of of_text (some (str s)) = of_text s
float_of of_text (some other) = unparsable

abbrev pub clamped : ℕ → ℕ → Float → ℕ
clamped ceiling default_value (positive n) = min n ceiling
clamped ceiling default_value other = min default_value ceiling

-- `clamp_timeout`, under the ceiling of the environment.
unfoldable pub clamp_timeout : (String → Float) → ℕ → Option Value → ℕ → ℕ
clamp_timeout of_text ceiling v default_value = clamped ceiling default_value (float_of of_text v)

abbrev operator_keys : List String
operator_keys = "allow_plaintext_acknowledged" ∷ "allow_private_addresses" ∷ "allowed_schemes" ∷ []

abbrev pub has_key : Fields → String → Bool
has_key config key = elim (get key config) [ none ↦ false | some v ↦ true ]

-- `rejected_operator_keys`, sorted.
unfoldable pub rejected_operator_keys : Fields → List String
rejected_operator_keys config = select (has_key config) operator_keys

-- The items that are texts: another is equal to none of the operator's.
abbrev pub texts_in : Items → List String
texts_in nil = []
texts_in (cons (str s) rest) = s ∷ texts_in rest
texts_in (cons other rest) = texts_in rest

abbrev pub keys_of : Fields → List String
keys_of end = []
keys_of (field k v rest) = k ∷ keys_of rest

abbrev pub characters : String → List String
characters String.[] = []
characters (String.◌∷◌ c s) = String.◌∷◌ c "" ∷ characters s

-- `tuple(config.get(key) or ())`, with `none` for the TypeError of what is no sequence.
abbrev pub sequence_of : Option Value → Option (List String)
sequence_of none = some []
sequence_of (some (arr items)) = some (texts_in items)
sequence_of (some (str s)) = some (characters s)
sequence_of (some (obj fields)) = some (keys_of fields)
sequence_of (some other) = if is_truthy other then none else some []

-- An item that is no text ends the check of a host in an AttributeError.
abbrev pub only_texts : Items → Bool
only_texts nil = true
only_texts (cons (str s) rest) = only_texts rest
only_texts (cons other rest) = false

abbrev pub hosts_of : Option Value → Option (List String)
hosts_of (some (arr items)) = if only_texts items then some (texts_in items) else none
hosts_of other = sequence_of other

abbrev pub wanted :
    Fields → Option (List String) → Option (List String) → Option (List String) → Option Wanted
wanted config (some hosts) (some schemes) (some types) = some (record {
  allowed_hosts = hosts;
  requested_schemes = schemes;
  allowed_content_types = types;
  max_response_bytes = positive_int (get "max_response_bytes" config);
  max_redirects = positive_int (get "max_redirects" config);
})
wanted config hosts schemes types = none

abbrev pub wanted_of : Fields → Option Wanted
wanted_of config =
    wanted config (hosts_of (get "allowed_hosts" config))
      (sequence_of (get "requested_schemes" config))
      (sequence_of (get "allowed_content_types" config))

abbrev built : Operator → Option Wanted → Option OutboundPolicy
built op none = none
built op (some w) = some (build_policy op w 3)

-- `build_policy(config)`, with `none` for an exception.
unfoldable pub config_policy : Operator → Fields → Option OutboundPolicy
config_policy op config = built op (wanted_of config)

underscored : positive_int (some (str " 1_000 ")) ≡ some 1000
unfolding positive_int
underscored = refl

float_of-positive :
    (of_text : String → Float) (v : Option Value) (n : ℕ)
    → ((s : String) (n : ℕ) → of_text s ≡ positive n → 0 < n)
    → float_of of_text v ≡ positive n
    → 0 < n
float_of-positive of_text none n sound h = absurd (ground arith)
float_of-positive of_text (some null) n sound h = absurd (ground arith)
float_of-positive of_text (some (bool b)) n sound h = ground arith
float_of-positive of_text (some (int (pos m))) n sound h = ground arith
float_of-positive of_text (some (int (negsuc m))) n sound h = absurd (ground arith)
float_of-positive of_text (some (real m)) n sound h = ground arith
float_of-positive of_text (some (str s)) n sound h = sound s n h
float_of-positive of_text (some (obj fs)) n sound h = absurd (ground arith)
float_of-positive of_text (some (arr vs)) n sound h = absurd (ground arith)

clamped-bounds :
    (ceiling default_value : ℕ) (f : Float)
    → 0 < ceiling
    → 0 < default_value
    → ((n : ℕ) → f ≡ positive n → 0 < n)
    → (0 < clamped ceiling default_value f) × (clamped ceiling default_value f ≤ ceiling)
clamped-bounds ceiling d (positive n) c e sound =
    let some_time = sound n refl in (omega arith, omega arith)
clamped-bounds ceiling d unparsable c e sound = (omega arith, omega arith)
clamped-bounds ceiling d not_finite c e sound = (omega arith, omega arith)
clamped-bounds ceiling d not_positive c e sound = (omega arith, omega arith)

-- Whatever the configuration holds, a timeout is positive and within the ceiling, if both the default
-- and the ceiling are positive and so is what `float` calls so.
pub clamp_timeout-bounds :
    (of_text : String → Float) (ceiling : ℕ) (v : Option Value) (default_value : ℕ)
    → 0 < ceiling
    → 0 < default_value
    → ((s : String) (n : ℕ) → of_text s ≡ positive n → 0 < n)
    → (0 < clamp_timeout of_text ceiling v default_value)
      × (clamp_timeout of_text ceiling v default_value ≤ ceiling)
unfolding clamp_timeout
clamp_timeout-bounds of_text ceiling v default_value some_time some_default sound =
    clamped-bounds ceiling default_value (float_of of_text v) some_time some_default
      (λ n h. float_of-positive of_text v n sound h)
