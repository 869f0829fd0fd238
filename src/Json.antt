-- ===== src/Json.antt =====
-- Values of JSON, with an object as a dict in the order of its keys. A Python value of another type than
-- the reader takes is kept by the source; here reading it raises a type error.
mod Tests
use titus_isolate.Prelude.{
  ℕ, ◌≡◌, refl, ap, ◌∙◌, String, Bool, List, [], ◌∷◌, Option, none, some, map, All, if◌then◌else◌,
  ◌==◌, string_eq, Dict, Result, ok, raise, key_error, type_error, ◌>>=◌,
}

mutual
  pub data Json : Type 0 where
    number : ℕ → Json
    -- Another number, as it is written.
    decimal : String → Json
    text : String → Json
    flag : Bool → Json
    array : Items → Json
    object : Fields → Json

  pub data Items : Type 0 where
    nil : Items
    cons : Json → Items → Items

  pub data Fields : Type 0 where
    end : Fields
    entry : String → Json → Fields → Fields

abbrev pub as_number : Json → Result ℕ
as_number (number n) = ok n
as_number (decimal s) = raise type_error
as_number (text s) = raise type_error
as_number (flag b) = raise type_error
as_number (array js) = raise type_error
as_number (object fs) = raise type_error

abbrev pub as_text : Json → Result String
as_text (number n) = raise type_error
as_text (decimal s) = raise type_error
as_text (text s) = ok s
as_text (flag b) = raise type_error
as_text (array js) = raise type_error
as_text (object fs) = raise type_error

abbrev pub as_flag : Json → Result Bool
as_flag (number n) = raise type_error
as_flag (decimal s) = raise type_error
as_flag (text s) = raise type_error
as_flag (flag b) = ok b
as_flag (array js) = raise type_error
as_flag (object fs) = raise type_error

abbrev pub as_array : Json → Result Items
as_array (number n) = raise type_error
as_array (decimal s) = raise type_error
as_array (text s) = raise type_error
as_array (flag b) = raise type_error
as_array (array js) = ok js
as_array (object fs) = raise type_error

abbrev pub as_object : Json → Result Fields
as_object (number n) = raise type_error
as_object (decimal s) = raise type_error
as_object (text s) = raise type_error
as_object (flag b) = raise type_error
as_object (array js) = raise type_error
as_object (object fs) = ok fs

abbrev pub find : String → Fields → Option Json
find k end = none
find k (entry j v fs) = let rest = find k fs in if k == j then some v else rest

abbrev pub found : Option Json → Result Json
found none = raise key_error
found (some v) = ok v

-- `body[k]`
abbrev pub get_field : String → Json → Result Json
get_field k body = as_object body >>= λ fs. found (find k fs)

-- `body.get(k, default)`
abbrev pub get_or : String → Json → Json → Result Json
get_or k default body =
    as_object body >>= λ fs. ok (elim (find k fs) [ none ↦ default | some v ↦ v ])

module _ {A : Type 0} where
  -- `[write(x) for x in xs]`
  abbrev pub each : (A → Json) → List A → Items
  each write [] = nil
  each write (x ∷ xs) = cons (write x) (each write xs)

  -- `[read(j) for j in js]`
  abbrev pub read_items : (Json → Result A) → Items → Result (List A)
  read_items read nil = ok []
  read_items read (cons j js) = read j >>= λ x. read_items read js >>= λ xs. ok (x ∷ xs)

  abbrev pub read_each : (Json → Result A) → Json → Result (List A)
  read_each read j = as_array j >>= read_items read

  -- What is written item by item is read item by item.
  pub read_items-each :
      (write : A → Json) (read : Json → Result A) (P : A → Type 0)
      → ((x : A) → P x → read (write x) ≡ ok x)
      → (xs : List A) → All P xs
      → read_items read (each write xs) ≡ ok xs
  read_items-each write read P back [] h = refl
  read_items-each write read P back (x ∷ xs) h =
      rw (back x h.0, read_items-each write read P back xs h.1) refl

-- A dict of texts.
abbrev pub text_fields : Dict String String → Fields
text_fields [] = end
text_fields ((k, v) ∷ d) = entry k (text v) (text_fields d)

abbrev pub read_texts : Fields → Result (Dict String String)
read_texts end = ok []
read_texts (entry k j fs) = as_text j >>= λ v. read_texts fs >>= λ d. ok ((k, v) ∷ d)

pub read_texts-text_fields : (d : Dict String String) → read_texts (text_fields d) ≡ ok d
read_texts-text_fields [] = refl
read_texts-text_fields ((k, v) ∷ d) = rw (read_texts-text_fields d) refl
