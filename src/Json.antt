-- ===== src/Json.antt =====
-- What the program uses of Go's package encoding/json, on documents as trees: how a text of a
-- document is read and written is left to the package. A member of an object is stored in the field
-- whose name it has up to case; a null leaves a field as it was. Where a document has several faults
-- the first one is reported.
use regula.Prelude.{
  ℕ, ◌+◌, String, Bool, true, false, ◌&&◌, List, [], ◌∷◌, leb, nat_eq, if◌then◌else◌, codes,
}
use regula.Outcome.{Error, message, Result, ok, err}

mutual
  pub data Json : Type 0 where
    null : Json
    boolean : Bool → Json
    number : String → Json
    text : String → Json
    array : Items → Json
    object : Members → Json

  pub data Items : Type 0 where
    no_items : Items
    item : Json → Items → Items

  pub data Members : Type 0 where
    no_members : Members
    member : String → Json → Members → Members

-- Bytes that may be read as JSON: a text, or a document, which stands for its text.
pub data Bytes : Type 0 where
  raw : String → Bytes
  document : Json → Bytes

-- Lower case for the letters of ASCII, the Kelvin sign and the long s.
abbrev pub fold : ℕ → ℕ
fold c =
    if leb b'A' c && leb c b'Z'
    then c + 32
    else if nat_eq c 0x212A
    then b'k'
    else if nat_eq c 0x17F
    then b's'
    else c

unfoldable pub same_fold : List ℕ → List ℕ → Bool
same_fold [] [] = true
same_fold (c ∷ s) (d ∷ t) = nat_eq (fold c) (fold d) && same_fold s t
same_fold _ _ = false

-- The field with this name takes the member with this key.
unfoldable pub is_field : String → String → Bool
unfolding same_fold
is_field name key = same_fold (codes name) (codes key)

-- An UnmarshalTypeError; its text also names the types.
abbrev pub type_error : Error
type_error = message "json: cannot unmarshal"

-- A field of type string, with what it holds.
unfoldable pub store_string : String → Json → Result String
store_string old (text s) = ok s
store_string old null = ok old
store_string old _ = err type_error

-- A field of type bool, with what it holds.
unfoldable pub store_bool : Bool → Json → Result Bool
store_bool old (boolean b) = ok b
store_bool old null = ok old
store_bool old _ = err type_error
