-- ===== src/Go/Json.antt =====
-- encoding/json on the raw values of cluster variables. A raw value is represented by the document
-- that its bytes hold, broken ones included. An unmarshal that fails or meets null leaves the
-- variable as it was.
use load_balancer_operator_f.Go.Int.{ℤ}
use load_balancer_operator_f.Prelude.{String, Bool, Option, none, some}

pub data Json : Type 0 where
  null : Json
  bool : Bool → Json
  -- an integer that fits Go's int
  int : ℤ → Json
  str : String → Json
  -- any other document, and bytes that are no document
  other malformed : Json

pub data JsonError : Type 0 where
  syntax type_mismatch : JsonError

-- json.Unmarshal into a *bool: the variable and the error.
unfoldable pub unmarshal_bool : Json → Bool → Bool × Option JsonError
unmarshal_bool null old = (old, none)
unmarshal_bool (bool b) old = (b, none)
unmarshal_bool malformed old = (old, some syntax)
unmarshal_bool _ old = (old, some type_mismatch)

-- json.Unmarshal into a *string.
unfoldable pub unmarshal_string : Json → String → String × Option JsonError
unmarshal_string null old = (old, none)
unmarshal_string (str s) old = (s, none)
unmarshal_string malformed old = (old, some syntax)
unmarshal_string _ old = (old, some type_mismatch)

-- json.Unmarshal into an *int.
unfoldable pub unmarshal_int : Json → ℤ → ℤ × Option JsonError
unmarshal_int null old = (old, none)
unmarshal_int (int n) old = (n, none)
unmarshal_int malformed old = (old, some syntax)
unmarshal_int _ old = (old, some type_mismatch)

-- json.Marshal of a string, which does not fail.
abbrev pub marshal_string : String → Json
marshal_string s = str s
