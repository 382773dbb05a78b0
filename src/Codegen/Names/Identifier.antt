-- ===== src/Codegen/Names/Identifier.antt =====
-- What sanitize_pascal makes is a TypeScript identifier.
use Prim.Native.Char.{Char, code}
use Prim.Native.String.{String, [], ◌∷◌}
use text.Mathlib.TextLemmas.{nil-append, cons-append}
use mathlib.Core.List
use mathlib.Core.List.{List}
use effect_opcua.Prelude.{
  ◌≡◌, refl, subst, Bool, true, false, ◌||◌, some, arith, nat_eq, All, All-append, Bool-cases, inl,
  inr,
}
use effect_opcua.Prelude.Text.{◌<>◌, join, is_digit}
use effect_opcua.Codegen.Names.{
  is_alphanumeric, shift, small_letters, capital_letters, upper, capitalize, flush, push_char,
  words_from, words, guard_digit, identifier_of, sanitize_pascal,
}

-- An ASCII letter, a digit or an underscore.
abbrev pub is_word_char : Char → Bool
is_word_char c = is_alphanumeric c || nat_eq (code c) b'_'

abbrev pub AllChars : (Char → Bool) → String → Type 0
AllChars p [] = Unit
AllChars p (c ∷ s) = (p c ≡ true) × AllChars p s

-- Not empty, of letters, digits and underscores, with no digit in front.
abbrev pub IsIdentifier : String → Type 0
IsIdentifier [] = ⊥
IsIdentifier (c ∷ s) = (is_digit c ≡ false) × AllChars is_word_char (c ∷ s)

abbrev IsWord : String → Type 0
IsWord [] = ⊥
IsWord (c ∷ s) = AllChars is_alphanumeric (c ∷ s)

module _ (p : Char → Bool) where
  AllChars-append : (s t : String) → AllChars p s → AllChars p t → AllChars p (s <> t)
  AllChars-append [] t h k = rw nil-append k
  AllChars-append (c ∷ s) t (q, h) k = rw cons-append (q, AllChars-append s t h k)

  AllChars-shift :
      (from to : String) (c : Char) → AllChars p to → p c ≡ true → p (shift from to c) ≡ true
  unfolding shift
  AllChars-shift (a ∷ from) (b ∷ to) c (q, h) k = ground (arith, AllChars-shift from to c h k)
  AllChars-shift [] to c h k = k
  AllChars-shift (a ∷ from) [] c h k = k

upper-alphanumeric : (c : Char) → is_alphanumeric c ≡ true → is_alphanumeric (upper c) ≡ true
unfolding upper
upper-alphanumeric c h =
    AllChars-shift is_alphanumeric small_letters capital_letters c (ground arith) h

capitalize-IsWord : (s : String) → IsWord s → IsWord (capitalize s)
unfolding capitalize
capitalize-IsWord [] h = h
capitalize-IsWord (c ∷ s) (q, h) = (upper-alphanumeric c q, h)

flush-IsWord : (s : String) → AllChars is_alphanumeric s → All IsWord (flush s)
flush-IsWord [] h = tt
flush-IsWord (c ∷ s) h = (h, tt)

words_from-IsWord :
    (word s : String) → AllChars is_alphanumeric word → All IsWord (words_from word s)
unfolding words_from
words_from-IsWord word [] h = flush-IsWord word h
words_from-IsWord word (c ∷ s) h = elim (Bool-cases (is_alphanumeric c)) [
  | inl q ↦ rw q (
      words_from-IsWord (push_char word c) s
        (AllChars-append is_alphanumeric word (c ∷ []) h (q, tt)))
  | inr q ↦ rw q (
      All-append IsWord (flush word) (words_from [] s) (flush-IsWord word h)
        (words_from-IsWord [] s tt))
]

AllChars-of_IsWord : (s : String) → IsWord s → AllChars is_alphanumeric s
AllChars-of_IsWord [] h = tt
AllChars-of_IsWord (c ∷ s) h = h

join-IsWord :
    (w : String) (ws : List String) → IsWord w → All IsWord ws → IsWord (join "" (List.◌∷◌ w ws))
unfolding join
join-IsWord w List.[] h k = h
join-IsWord [] (List.◌∷◌ v ws) h k = elim h [ ]
join-IsWord (c ∷ s) (List.◌∷◌ v ws) (q, h) (hv, k) =
    rw (cons-append, nil-append)
      (
        q,
        AllChars-append is_alphanumeric s (join "" (List.◌∷◌ v ws)) h
            (AllChars-of_IsWord (join "" (List.◌∷◌ v ws)) (join-IsWord v ws hv k)),
      )

map-capitalize-IsWord : (ws : List String) → All IsWord ws → All IsWord (List.map capitalize ws)
map-capitalize-IsWord List.[] h = tt
map-capitalize-IsWord (List.◌∷◌ w ws) (q, h) = (capitalize-IsWord w q, map-capitalize-IsWord ws h)

AllChars-word : (s : String) → AllChars is_alphanumeric s → AllChars is_word_char s
AllChars-word [] h = tt
AllChars-word (c ∷ s) (q, h) = (rw q, AllChars-word s h)

guard_digit-IsIdentifier : (s : String) → IsWord s → IsIdentifier (guard_digit s)
unfolding guard_digit
guard_digit-IsIdentifier [] h = elim h [ ]
guard_digit-IsIdentifier (c ∷ s) h = elim (Bool-cases (is_digit c)) [
  | inl q ↦ rw (q, cons-append, nil-append) (refl, (refl, AllChars-word (c ∷ s) h))
  | inr q ↦ rw q (q, AllChars-word (c ∷ s) h)
]

-- A generated name is an identifier: no digit in front, and only ASCII letters, digits and "_".
pub sanitize_pascal-IsIdentifier :
    (value name : String) → sanitize_pascal value ≡ some name → IsIdentifier name
unfolding sanitize_pascal
sanitize_pascal-IsIdentifier value name h =
    of_parts (List.map capitalize (words value))
      (map-capitalize-IsWord (words value) (words_from-IsWord [] value tt)) h
  where
    of_parts : (ws : List String) → All IsWord ws → identifier_of ws ≡ some name → IsIdentifier name
    of_parts List.[] k e = cc
    of_parts (List.◌∷◌ w ws) (q, k) e =
        let same : guard_digit (join "" (List.◌∷◌ w ws)) ≡ name = cc in
        subst IsIdentifier same (guard_digit-IsIdentifier _ (join-IsWord w ws q k))
