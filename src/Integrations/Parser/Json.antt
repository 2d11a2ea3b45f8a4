-- ===== src/Integrations/Parser/Json.antt =====
-- The values that `json.loads` returns, and how app/integrations/webhook_parser.py reads them.
use whatsapp_bot.Prelude.{
  ℕ, String, Bool, true, false, not, Option, none, some, List, [], ◌∷◌, clip, is_blank, ◌==◌,
  string_eq, if◌then◌else◌,
}

-- The elements of an array and the members of an object are lists of values, each with its own
-- constructors. A number is its literal.
mutual
  pub data Json : Type 0 where
    null : Json
    boolean : Bool → Json
    number : String → Json
    text : String → Json
    array : Elements → Json
    object : Members → Json

  pub data Elements : Type 0 where
    end : Elements
    element : Json → Elements → Elements

  pub data Members : Type 0 where
    empty : Members
    member : String → Json → Members → Members

-- What Python does with values that are no text: the timestamp of a value, where `int` may raise,
-- and the moment may be out of range, `str` of another value, whether a number is zero, and
-- `str.isdigit`, `int` of such a text, `str.lower`, and `payload_fingerprint`.
pub data Moment : Type 0 where
  at : ℕ → Moment
  not_a_number out_of_range : Moment

pub record JsonHost : Type 0 where
  pub moment : Option Json → Moment
  pub text_of : Json → String
  pub is_zero : String → Bool
  pub is_digits : String → Bool
  pub to_int : String → Option ℕ
  pub lower : String → String
  pub fingerprint : Members → String

abbrev pub elements : Elements → List Json
elements end = []
elements (element x rest) = x ∷ elements rest

-- `_as_list`
abbrev pub as_list : Option Json → List Json
as_list (some (array xs)) = elements xs
as_list (some null) = []
as_list (some (boolean _)) = []
as_list (some (number _)) = []
as_list (some (text _)) = []
as_list (some (object _)) = []
as_list none = []

-- `_as_dict`
abbrev pub as_dict : Option Json → Members
as_dict (some (object ms)) = ms
as_dict (some null) = empty
as_dict (some (boolean _)) = empty
as_dict (some (number _)) = empty
as_dict (some (text _)) = empty
as_dict (some (array _)) = empty
as_dict none = empty

-- `dict.get`; the keys of a dict differ.
abbrev pub get : Members → String → Option Json
get empty key = none
get (member k v rest) key = if k == key then some v else get rest key

abbrev pub is_empty_dict : Members → Bool
is_empty_dict empty = true
is_empty_dict (member _ _ _) = false

-- `_clip`
abbrev pub clip_text : ℕ → Option Json → Option String
clip_text limit (some (text s)) = some (clip limit s)
clip_text limit (some null) = none
clip_text limit (some (boolean _)) = none
clip_text limit (some (number _)) = none
clip_text limit (some (array _)) = none
clip_text limit (some (object _)) = none
clip_text limit none = none

module _ (host : JsonHost) where
  -- `bool(value)`
  abbrev pub truthy : Json → Bool
  truthy null = false
  truthy (boolean b) = b
  truthy (number n) = not (host.is_zero n)
  truthy (text s) = not (is_blank s)
  truthy (array end) = false
  truthy (array (element _ _)) = true
  truthy (object empty) = false
  truthy (object (member _ _ _)) = true

  -- `str(value)`
  abbrev pub str : Json → String
  str (text s) = s
  str null = host.text_of null
  str (boolean b) = host.text_of (boolean b)
  str (number n) = host.text_of (number n)
  str (array xs) = host.text_of (array xs)
  str (object ms) = host.text_of (object ms)

  -- `str(value or default)`
  abbrev pub str_or : Option Json → String → String
  str_or none default = default
  str_or (some v) default = if truthy v then str v else default
