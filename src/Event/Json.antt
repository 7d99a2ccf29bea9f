-- ===== src/Event/Json.antt =====
-- JSON values, as encoding/json reads and writes them. Numbers are integers, `neg n` being -(n + 1), and
-- an instant is a number: the RFC 3339 text of a time.Time is held as the instant that it denotes.
use Prim.Native.Char.{Char, code}
use Prim.Native.String.{[], ◌∷◌}
use re_lab.Common.{
  ℕ, ◌+◌, ℤ, pos, negsuc, zero_ℤ, String, Bool, true, false, ◌&&◌, ◌||◌, Option, none, some, leb,
  ◌==◌, if◌then◌else◌,
}

mutual
  pub data Json : Type 0 where
    null : Json
    bool : Bool → Json
    num : ℕ → Json
    neg : ℕ → Json
    str : String → Json
    arr : Items → Json
    obj : Fields → Json

  pub data Items : Type 0 where
    nil : Items
    cons : Json → Items → Items

  pub data Fields : Type 0 where
    end : Fields
    field : String → Json → Fields → Fields

-- Whether a key names a field whose name is in small ASCII letters and digits: encoding/json folds
-- the case of keys, by which a Kelvin sign is a k and a long s an s.
unfoldable same_letter : Char → Char → Bool
same_letter c d =
    code c == code d
    || leb 65 (code c) && leb (code c) 90 && code c + 32 == code d
    || code c == 8490 && code d == 107
    || code c == 383 && code d == 115

unfoldable pub names : String → String → Bool
unfolding same_letter
names [] [] = true
names [] (d ∷ t) = false
names (c ∷ s) [] = false
names (c ∷ s) (d ∷ t) = same_letter c d && names s t

abbrev or_earlier : Option Json → Option Json → Option Json
or_earlier none v = v
or_earlier (some v) _ = some v

-- The last of the members that name a field; that Go also refuses an earlier one of another kind is
-- left out. A json.RawMessage field takes it as it stands, `null`
-- included, and is empty where there is none.
unfoldable pub get? : String → Fields → Option Json
unfolding names
get? k end = none
get? k (field j v fs) = or_earlier (get? k fs) (if names j k then some v else none)

abbrev or_null : Option Json → Json
or_null none = null
or_null (some v) = v

-- A pointer or a slice is nil where its last member is `null`, or where it has none.
unfoldable pub get_last : String → Fields → Json
unfolding get?
get_last k fs = or_null (get? k fs)

abbrev unless_null : Json → Json → Json
unless_null null v = v
unless_null w _ = w

-- A `null` leaves a number, a text or a Boolean alone, and so does a field that is absent.
unfoldable pub get : String → Fields → Json
unfolding names
get k end = null
get k (field j v fs) = unless_null (get k fs) (if names j k then v else null)

-- json.Unmarshal into an int (of those that hold no negative number), a string, a bool, or a struct: a value of another kind is an error.
unfoldable pub num_of : Json → Option ℕ
num_of null = some 0
num_of (num n) = some n
num_of _ = none

-- An int64 that may be negative, as a seed may be.
unfoldable pub int_of : Json → Option ℤ
int_of null = some zero_ℤ
int_of (num n) = some (pos n)
int_of (neg n) = some (negsuc n)
int_of _ = none

unfoldable pub str_of : Json → Option String
str_of null = some ""
str_of (str s) = some s
str_of _ = none

unfoldable pub bool_of : Json → Option Bool
bool_of null = some Bool.false
bool_of (bool b) = some b
bool_of _ = none

unfoldable pub fields_of : Json → Option Fields
fields_of null = some end
fields_of (obj fs) = some fs
fields_of _ = none

-- A pointer field, as in `V *int`: nil where the field is absent or null.
unfoldable pub num_ptr_of : Json → Option (Option ℕ)
num_ptr_of null = some none
num_ptr_of (num n) = some (some n)
num_ptr_of _ = none

unfoldable pub items_of : Json → Option Items
items_of null = some nil
items_of (arr xs) = some xs
items_of _ = none
