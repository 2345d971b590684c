-- ===== src/Common/Json.antt =====
-- The JSON payloads that events carry.
use Prim.Native.Nat.{ℕ}
use Prim.Native.String.{String}
use mathlib.Core.Bool.{Bool, false, ◌||◌}
use mathlib.Core.List.{List, [], ◌∷◌}
use mathlib.Core.Option.{Option, none, some}
use elowyn_assist.Common.Tests.{◌==◌}
use elowyn_assist.Common.Text.{Text}
use elowyn_assist.Common.Float.{Float}

-- A scalar, an object or an array. `uuid` stands for the text of an identifier, `name` for a fixed word such
-- as an enumeration's value, `time` for the text of an instant.
mutual
  pub data Json : Type 0 where
    null : Json
    flag : Bool → Json
    number : ℕ → Json
    uuid : ℕ → Json
    name : String → Json
    time : ℕ → Json
    real : Float → Json
    string : Text → Json
    object : Fields → Json
    array : Elements → Json

  pub data Fields : Type 0 where
    end : Fields
    field : String → Json → Fields → Fields

  pub data Elements : Type 0 where
    none_left : Elements
    element : Json → Elements → Elements

-- Whether an identifier stands in a payload: `str(id) in str(payload)`. Only the identifiers in it are
-- compared. The search of the source is one in the printed text, which also finds an identifier that
-- is spelled out in a key or in a text.
unfoldable mutual
  pub mentions : ℕ → Json → Bool
  mentions i null = false
  mentions i (flag b) = false
  mentions i (number n) = false
  mentions i (uuid j) = j == i
  mentions i (name w) = false
  mentions i (time t) = false
  mentions i (real x) = false
  mentions i (string t) = false
  mentions i (object fs) = mentions_field i fs
  mentions i (array es) = mentions_element i es

  pub mentions_field : ℕ → Fields → Bool
  mentions_field i end = false
  mentions_field i (field k v fs) = mentions i v || mentions_field i fs

  pub mentions_element : ℕ → Elements → Bool
  mentions_element i none_left = false
  mentions_element i (element v es) = mentions i v || mentions_element i es

abbrev pub optional_text : Option Text → Json
optional_text none = null
optional_text (some t) = string t

abbrev pub optional_uuid : Option ℕ → Json
optional_uuid none = null
optional_uuid (some i) = uuid i

abbrev pub optional_name {ℓ} : {A : Type ℓ} → (A → String) → Option A → Json
optional_name value none = null
optional_name value (some a) = name (value a)

abbrev pub optional_number : Option ℕ → Json
optional_number none = null
optional_number (some n) = number n

abbrev pub optional_time : Option ℕ → Json
optional_time none = null
optional_time (some t) = time t

abbrev pub optional_real : Option Float → Json
optional_real none = null
optional_real (some x) = real x

abbrev pub uuids : List ℕ → Elements
uuids [] = none_left
uuids (i ∷ is) = element (uuid i) (uuids is)
