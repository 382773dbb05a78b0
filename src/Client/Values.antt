-- ===== src/Client/Values.antt =====
-- The parts of packages/client/src/internal/values/normalize.ts that a sample is described with. A
-- status code, a variant and a data value are node-opcua's.
pub mod Int64
pub mod Tests
pub use mathlib.Core.Option.{map as map_option}
use effect_opcua.Prelude.{ℕ, String, Option, none, some, List, Bool, not, ◌&&◌}

-- StatusCode, with what its methods answer.
pub record StatusCode : Type 0 where
  pub text : String
  pub value : ℕ
  pub good : Bool
  pub bad : Bool

-- The numbers are the values of node-opcua's enums DataType and VariantArrayType.
pub record Variant (Payload : Type 0) : Type 0 where
  pub data_type : ℕ
  pub array_type : ℕ
  pub dimensions : Option (List ℕ)
  pub content : Payload

-- A Date is its time in milliseconds.
pub record DataValue (Payload : Type 0) : Type 0 where
  pub status_code : StatusCode
  pub source_timestamp : Option ℕ
  pub server_timestamp : Option ℕ
  pub value : Option (Variant Payload)

pub record StatusInfo : Type 0 where
  pub text : String
  pub code : ℕ
  pub is_good : Bool
  pub is_uncertain : Bool
  pub is_bad : Bool

pub record VariantInfo : Type 0 where
  pub data_type : String
  pub array_type : Option String
  pub array_dimensions : Option (List ℕ)

-- The names in the two enums, String of a number and toISOString.
pub record Platform : Type 0 where
  pub data_type_name : ℕ → Option String
  pub array_type_name : ℕ → Option String
  pub number_text : ℕ → String
  pub iso_text : ℕ → String

-- `??`
abbrev pub get_or : {A : Type 0} → A → Option A → A
get_or default none = default
get_or default (some a) = a

unfoldable pub is_good : StatusCode → Bool
is_good status_code = status_code.good

unfoldable pub normalize_status_code : StatusCode → StatusInfo
normalize_status_code status_code = record {
  text = status_code.text;
  code = status_code.value;
  is_good = status_code.good;
  is_uncertain = not status_code.good && not status_code.bad;
  is_bad = status_code.bad;
}

module _ (platform : Platform) where
  unfoldable pub normalize_timestamp : Option ℕ → Option String
  normalize_timestamp timestamp = map_option platform.iso_text timestamp

  unfoldable pub normalize_variant_info : {Payload : Type 0} → Variant Payload → VariantInfo
  normalize_variant_info variant = record {
    data_type =
        get_or (platform.number_text variant.data_type) (platform.data_type_name variant.data_type);
    array_type = platform.array_type_name variant.array_type;
    array_dimensions = variant.dimensions;
  }
