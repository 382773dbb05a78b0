-- ===== src/Client/Values/Int64.antt =====
-- int64Text of packages/client/src/internal/values/normalize.ts: the text of an Int64 or a UInt64,
-- which node-opcua gives as a pair of words, the high one first.
use effect_opcua.Prelude.{
  ℕ, ◌+◌, ◌-◌, ◌*◌, ◌<◌, String, Option, none, some, Bool, true, false, ltb, if◌then◌else◌, ◌≡◌,
  sym, ap, arith,
}
use Prim.Native.Nat.{◌%◌}
use effect_opcua.Prelude.Int.{ℤ, pos, negsuc}

abbrev two_32 : ℕ
two_32 = 4294967296

abbrev two_63 : ℕ
two_63 = 9223372036854775808

abbrev two_64 : ℕ
two_64 = 18446744073709551616

-- The kinds of value that int64Text tells apart; the numbers of a pair are integers.
pub data Int64Value (JsNumber : Type 0) : Type 0 where
  bigint : ℤ → Int64Value JsNumber
  number : JsNumber → Int64Value JsNumber
  string : String → Int64Value JsNumber
  words : ℤ → ℤ → Int64Value JsNumber
  something_else : Int64Value JsNumber

-- `>>> 0`: the number modulo 2 ^ 32.
unfoldable pub to_uint32 : ℤ → ℕ
to_uint32 (pos n) = n % two_32
to_uint32 (negsuc n) = 4294967295 - n % two_32

-- BigInt.asIntN(64, unsigned)
unfoldable pub as_int_64 : ℕ → ℤ
as_int_64 unsigned =
    let rest = unsigned % two_64 in
    if ltb rest two_63 then pos rest else negsuc (18446744073709551615 - rest)

-- The lower bits of the shifted word are 0, so `|` adds.
unfoldable pub unsigned_of : ℤ → ℤ → ℕ
unfolding to_uint32
unsigned_of high low = to_uint32 high * two_32 + to_uint32 low

module _ {JsNumber : Type 0} (bigint_text : ℤ → String) (number_text : JsNumber → String) where
  unfoldable pub int64_text : Int64Value JsNumber → Bool → Option String
  unfolding as_int_64 unsigned_of
  int64_text (bigint z) signed = some (bigint_text z)
  int64_text (number n) signed = some (number_text n)
  int64_text (string s) signed = some s
  int64_text (words high low) signed =
      let unsigned = unsigned_of high low in
      some (bigint_text (if signed then as_int_64 unsigned else pos unsigned))
  int64_text something_else signed = none

-- The word that a number from -2 ^ 32 on and below 2 ^ 32 stands for, with or without a sign.
abbrev pub IsWord : ℤ → ℕ → Type 0
IsWord (pos n) w = (n ≡ w) × (w < two_32)
IsWord (negsuc n) w = (n + w + 1 ≡ two_32)

-- The 64 bits of an integer as two words, in two's complement.
abbrev pub Encodes : ℤ → ℕ → ℕ → Type 0
Encodes (pos n) high low = n ≡ high * two_32 + low
Encodes (negsuc n) high low = n + (high * two_32 + low) + 1 ≡ two_64

-- What the type has: 64 bits, signed or not.
abbrev pub InRange : Bool → ℤ → Type 0
InRange true (pos n) = n < two_63
InRange true (negsuc n) = n < two_63
InRange false (pos n) = n < two_64
InRange false (negsuc n) = ⊥

to_uint32-IsWord : (z : ℤ) (w : ℕ) → IsWord z w → to_uint32 z ≡ w
unfolding to_uint32
to_uint32-IsWord (pos n) w (e, h) = omega arith
to_uint32-IsWord (negsuc n) w h = omega arith

as_int_64_small : (u n : ℕ) → n < two_63 → n ≡ u → as_int_64 u ≡ pos n
unfolding as_int_64
as_int_64_small u n h e = ground arith

as_int_64_large : (u n : ℕ) → n < two_63 → n + u + 1 ≡ two_64 → as_int_64 u ≡ negsuc n
unfolding as_int_64
as_int_64_large u n h e = ground arith

as_int_64-Encodes :
    (z : ℤ) (high low : ℕ)
    → InRange true z
    → Encodes z high low
    → as_int_64 (high * two_32 + low) ≡ z
as_int_64-Encodes (pos n) high low h e = as_int_64_small (high * two_32 + low) n h e
as_int_64-Encodes (negsuc n) high low h e = as_int_64_large (high * two_32 + low) n h e

shown-Encodes :
    (signed : Bool) (z : ℤ) (high low : ℕ)
    → InRange signed z
    → Encodes z high low
    → (if signed then as_int_64 (high * two_32 + low) else pos (high * two_32 + low)) ≡ z
shown-Encodes true z high low h e = as_int_64-Encodes z high low h e
shown-Encodes false (pos n) high low h e = ap pos (sym e)
shown-Encodes false (negsuc n) high low h e = absurd h

-- An integer that its type has, given as the two words of its two's complement, each as a number with
-- or without a sign, is written as the text of that integer: nothing is lost on the way.
pub int64_text-words :
    {JsNumber : Type 0} (bigint_text : ℤ → String) (number_text : JsNumber → String) (signed : Bool)
    (z high_number low_number : ℤ) (high low : ℕ)
    → InRange signed z
    → Encodes z high low
    → IsWord high_number high
    → IsWord low_number low
    → int64_text bigint_text number_text (words high_number low_number) signed
      ≡ some (bigint_text z)
unfolding int64_text unsigned_of
int64_text-words bigint_text number_text signed z high_number low_number high low h e wh wl =
    rw (to_uint32-IsWord high_number high wh, to_uint32-IsWord low_number low wl)
      (ap (λ n. some (bigint_text n)) (shown-Encodes signed z high low h e))
