-- ===== src/Client/Values/Tests.antt =====
-- The number -1 in an Int64, whose words are all ones.
use effect_opcua.Prelude.{ℕ, String, some, true, arith, ◌≡◌, refl}
use effect_opcua.Prelude.Int.{ℤ, pos, negsuc}
use effect_opcua.Client.Values.Int64.{int64_text, int64_text-words, words}

abbrev sign_text : ℤ → String
sign_text (pos n) = "+"
sign_text (negsuc n) = "-"

abbrev no_text : ℕ → String
no_text n = ""

int64_text-words_example :
    int64_text sign_text no_text (words (negsuc 0) (pos 4294967295)) true ≡ some "-"
int64_text-words_example =
    int64_text-words sign_text no_text true (negsuc 0) (negsuc 0) (pos 4294967295) 4294967295
      4294967295 (omega arith) (omega arith) (omega arith) (refl, omega arith)
