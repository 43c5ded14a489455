-- ===== src/Catalog/Inputs.antt =====
-- The JSON schemas of the tools' arguments, without the descriptions.
use smalt_mcp.Prelude.{ℕ, Bool, Option, none, some, List, [], ◌∷◌, Text, codes}

-- The `default` of a property.
pub data Default : Type 0 where
  bool_default : Bool → Default
  number_default : ℕ → Default
  text_default : Text → Default

-- `object` has its `properties` and its list `required`; `any_object` has neither. An integer may
-- have a `minimum` and a `maximum`, and `one_of` is a string with an `enum`.
mutual
  pub data Shape : Type 0 where
    anything any_object string number boolean : Shape
    one_of : List Text → Shape
    integer : Option ℕ → Option ℕ → Shape
    array_of : Shape → Shape
    object : Fields → List Text → Shape

  pub data Fields : Type 0 where
    end : Fields
    field : Text → Shape → Option Default → Fields → Fields

-- An entry of `properties`.
pub record Property : Type 0 where
  pub key : Text
  pub shape : Shape
  pub default : Option Default

abbrev pub arg : Text → Shape → Property
arg key shape = record { key = key; shape = shape; default = none }

abbrev pub arg_or : Text → Shape → Default → Property
arg_or key shape default = record { key = key; shape = shape; default = some default }

abbrev pub fields : List Property → Fields
fields [] = end
fields (p ∷ ps) = field p.key p.shape p.default (fields ps)

-- The schema of a claim, which four tools repeat.
abbrev pub claim_shape : Shape
claim_shape =
    object
      (fields (
        arg (codes "id") string
        ∷ arg (codes "text") string
        ∷ arg (codes "value_type")
            (one_of (codes "string" ∷ codes "number" ∷ codes "bool" ∷ codes "date" ∷ []))
        ∷ arg (codes "value") anything
        ∷ arg (codes "unit") string
        ∷ arg (codes "confidence") number
        ∷ arg (codes "confidence_label")
            (one_of (codes "high" ∷ codes "medium" ∷ codes "low" ∷ codes "unrated" ∷ []))
        ∷ arg (codes "source_ref") string
        ∷ []))
      (codes "id" ∷ codes "text" ∷ [])
