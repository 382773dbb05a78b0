-- ===== src/Codegen/Names.antt =====
-- packages/codegen/src/compile/names.ts: identifiers from BrowseNames. The regular expressions match
-- ASCII letters and digits only.
pub mod Surface
pub mod Identifier
use Prim.Native.Char.{Char, code}
use Prim.Native.String
use Prim.Native.String.{String, [], ◌∷◌, count}
use mathlib.Core.List
use mathlib.Core.List.{List}
use mathlib.Core.Option.{Option, none, some}
use mathlib.Core.Bool.{Bool, true, false, not, ◌&&◌, ◌||◌}
use effect_opcua.Prelude.{ltb, leb, nat_eq, flat_map, if◌then◌else◌, ◌≡◌, refl}
use effect_opcua.Prelude.Text.{◌<>◌, join, is_digit}

abbrev pub is_lower : Char → Bool
is_lower c = leb b'a' (code c) && leb (code c) b'z'

abbrev pub is_upper : Char → Bool
is_upper c = leb b'A' (code c) && leb (code c) b'Z'

-- [A-Za-z0-9]
abbrev pub is_alphanumeric : Char → Bool
is_alphanumeric c = is_lower c || is_upper c || is_digit c

-- The character of the second alphabet at the place where the first has `c`, and else `c`.
shift : String → String → Char → Char
shift (a ∷ from) (b ∷ to) c = if nat_eq (code a) (code c) then b else shift from to c
shift _ _ c = c

abbrev small_letters : String
small_letters = "abcdefghijklmnopqrstuvwxyz"

abbrev capital_letters : String
capital_letters = "ABCDEFGHIJKLMNOPQRSTUVWXYZ"

-- toUpperCase and toLowerCase of an ASCII character
pub upper : Char → Char
unfolding shift
upper = shift small_letters capital_letters

pub lower : Char → Char
unfolding shift
lower = shift capital_letters small_letters

lower_all : String → String
unfolding lower
lower_all [] = []
lower_all (c ∷ s) = lower c ∷ lower_all s

pub capitalize : String → String
unfolding upper
capitalize [] = []
capitalize (c ∷ s) = upper c ∷ s

abbrev pub flush : String → List String
flush [] = List.[]
flush (c ∷ s) = List.◌∷◌ (c ∷ s) List.[]

abbrev pub push_char : String → Char → String
push_char s c = s <> (c ∷ [])

pub words_from : String → String → List String
words_from word [] = flush word
words_from word (c ∷ s) =
    let longer = words_from (push_char word c) s in
    let closed = List.◌++◌ (flush word) (words_from [] s) in
    if is_alphanumeric c then longer else closed

-- value.match(/[A-Za-z0-9]+/g) ?? []: the longest runs
unfoldable pub words : String → List String
unfolding words_from
words = words_from []

-- /^[0-9]/.test(joined) ? `_${joined}` : joined
pub guard_digit : String → String
guard_digit [] = []
guard_digit (c ∷ s) = if is_digit c then "_" <> (c ∷ s) else c ∷ s

abbrev pub identifier_of : List String → Option String
identifier_of List.[] = none
identifier_of (List.◌∷◌ p parts) = some (guard_digit (join "" (List.◌∷◌ p parts)))

unfoldable pub sanitize_pascal : String → Option String
unfolding words capitalize guard_digit join
sanitize_pascal value = identifier_of (List.map capitalize (words value))

-- part.replace(/([a-z0-9])([A-Z])/g, "$1 $2"): two matches never share a character
spaced : String → String
spaced [] = []
spaced (c ∷ []) = c ∷ []
spaced (c ∷ d ∷ s) =
    let rest = spaced (d ∷ s) in
    if (is_lower c || is_digit c) && is_upper d then c ∷ (" " <> rest) else c ∷ rest

split_identifier_part : String → List String
unfolding spaced words
split_identifier_part part = words (spaced part)

unfoldable pub identifier_words : String → List String
unfolding split_identifier_part words
identifier_words value = flat_map split_identifier_part (words value)

abbrev camel_parts : List String → List String
camel_parts List.[] = List.[]
camel_parts (List.◌∷◌ p parts) =
    List.◌∷◌ (lower_all p) (List.map (λ w. capitalize (lower_all w)) parts)

unfoldable pub sanitize_camel : String → Option String
unfolding identifier_words lower_all capitalize guard_digit join
sanitize_camel value = identifier_of (camel_parts (identifier_words value))

-- isAllUpperAlpha: no small letter, and a capital one
all_upper_from : Bool → String → Bool
all_upper_from found [] = found
all_upper_from found (c ∷ s) = not (is_lower c) && all_upper_from (found || is_upper c) s

split_from : String → String → List String
split_from part [] = List.◌∷◌ part List.[]
split_from part (c ∷ s) =
    let closed = List.◌∷◌ part (split_from [] s) in
    let longer = split_from (push_char part c) s in if nat_eq (code c) b'_' then closed else longer

includes_underscore : String → Bool
includes_underscore [] = false
includes_underscore (c ∷ s) = if nat_eq (code c) b'_' then true else includes_underscore s

-- isUpper(value[1] ?? "") && isUpper(value[2] ?? "")
upper_second_and_third : String → Bool
upper_second_and_third (a ∷ b ∷ c ∷ s) = is_upper b && is_upper c
upper_second_and_third _ = false

-- `lower_case` is String.prototype.toLowerCase, which is not ASCII only here.
module _ (lower_case : String → String) where
  lower_first : String → String
  lower_first [] = lower_case ""
  lower_first (c ∷ s) = lower_case (c ∷ []) <> s

  lower_two : String → String
  lower_two (a ∷ b ∷ s) = lower_case (a ∷ b ∷ []) <> s
  lower_two s = lower_case s

  -- A name with no underscore, as every part of a split is.
  part_field_name : String → String
  unfolding lower_first lower_two all_upper_from upper_second_and_third
  part_field_name value =
      if leb 2 (count value) && all_upper_from false value
      then value
      else if ltb 3 (count (lower_first value)) && upper_second_and_third value
      then lower_two value
      else lower_first value

  unfoldable pub node_opcua_field_name : String → String
  unfolding part_field_name all_upper_from includes_underscore split_from join
  node_opcua_field_name value =
      if leb 2 (count value) && all_upper_from false value
      then value
      else if includes_underscore value
      then join "_" (List.map part_field_name (split_from [] value))
      else part_field_name value

-- pathKey and displayPath
unfoldable pub path_key : List String → String
unfolding join
path_key = join "."

unfoldable pub display_path : List String → String
unfolding join
display_path = join " / "

name_tests :
    (sanitize_pascal "motor speed-2" ≡ some "MotorSpeed2")
    × (sanitize_pascal "3phase" ≡ some "_3phase")
    × (sanitize_pascal "--" ≡ none)
    × (sanitize_camel "MotorSpeed RPM" ≡ some "motorSpeedRpm")
    × (node_opcua_field_name (λ s. lower_all s) "MotorSpeed" ≡ "motorSpeed")
    × (node_opcua_field_name (λ s. lower_all s) "RPMValue_ABC_xy" ≡ "rpMValue_ABC_xy")
unfolding sanitize_pascal sanitize_camel node_opcua_field_name
name_tests = (refl, refl, refl, refl, refl, refl)
