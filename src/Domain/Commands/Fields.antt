-- ===== src/Domain/Commands/Fields.antt =====
-- domain/commands.py: the bounds of single fields, and fields that a command may leave out.
use elowyn_assist.Common.{
  ℕ, Bool, true, false, not, ◌&&◌, ◌||◌, Option, none, some, ltb, leb, length,
}
use elowyn_assist.Common.Text.{Text, strip, is_empty}
use elowyn_assist.Domain.Errors.{Result, ok, value_error, out_of_range, raise_if}

-- `Field(min_length=1, max_length=limit)`.
unfoldable pub bounded_text : ℕ → Text → Result (Unit {0})
bounded_text limit value =
    raise_if (is_empty value || ltb limit (length value)) (value_error out_of_range)

-- `Field(min_length=1)`.
unfoldable pub nonempty_text : Text → Result (Unit {0})
nonempty_text value = raise_if (is_empty value) (value_error out_of_range)

-- `Field(ge=1, le=5)`.
abbrev pub in_scale : ℕ → Bool
in_scale n = leb 1 n && leb n 5

-- The same of an optional field.
unfoldable pub rating : Option ℕ → Result (Unit {0})
rating none = ok tt
rating (some n) = raise_if (not (in_scale n)) (value_error out_of_range)

-- An optional field of a command that changes something: `model_fields_set` tells a field that was
-- left out from one that was sent as `None`.
pub data Sent {ℓ} (A : Type ℓ) : Type ℓ where
  unset : Sent A
  sent : Option A → Sent A

abbrev pub is_sent {ℓ} : {A : Type ℓ} → Sent A → Bool
is_sent unset = false
is_sent (sent value) = true

-- The value of the field, whose default is `None`.
abbrev pub value_of {ℓ} : {A : Type ℓ} → Sent A → Option A
value_of unset = none
value_of (sent value) = value

-- `Field(default=None, max_length=limit)`.
unfoldable pub optional_text : ℕ → Sent Text → Result (Unit {0})
optional_text limit unset = ok tt
optional_text limit (sent none) = ok tt
optional_text limit (sent (some value)) =
    raise_if (ltb limit (length value)) (value_error out_of_range)

-- The test of the validators for a text that may be left out, and not be sent blank.
abbrev pub is_sent_blank : Sent Text → Bool
is_sent_blank unset = false
is_sent_blank (sent none) = true
is_sent_blank (sent (some value)) = is_empty (strip value)

-- The test for a type of a date that is sent along with no date.
abbrev pub lacks_date {ℓ} : {A : Type ℓ} → Sent A → Sent ℕ → Bool
lacks_date (sent (some type)) (sent none) = true
lacks_date (sent (some type)) (sent (some date)) = false
lacks_date (sent (some type)) unset = false
lacks_date (sent none) date = false
lacks_date unset date = false
