-- ===== src/Samples/Decimals.antt =====
-- A reading of decimal texts, for `int` of a text that `str` made of a number.
use Prim.Native.Char.{code}
use Prim.Native.String.append.{nil as nil-append, cons as cons-append}
use tributo_broker_redis.Base.{
  ℕ, zero, suc, ◌+◌, ◌-◌, ◌*◌, ◌/◌, ◌%◌, ◌<◌, String, ◌++ₛ◌, ◌≡◌, refl, ◌∙◌, true, false, Bool,
  Option, some, none, arith, ltb, if◌then◌else◌,
}
use tributo_broker_redis.Json.{Json, str, text, json_str}
use tributo_broker_redis.Patterns.{decimal, digits, digit}

unfoldable pub read_from : ℕ → String → ℕ
read_from value String.[] = value
read_from value (String.◌∷◌ c s) = read_from (value * 10 + (code c - 48)) s

abbrev pub int_of_text : Json → Option ℕ
int_of_text (str (text s)) = some (read_from 0 s)
int_of_text _ = none

read_from-append :
    (s t : String) (value : ℕ) → read_from value (s ++ₛ t) ≡ read_from (read_from value s) t
unfolding read_from
read_from-append String.[] t value = rw nil-append refl
read_from-append (String.◌∷◌ c s) t value =
    rw cons-append (read_from-append s t (value * 10 + (code c - 48)))

read_from-digit : (n value : ℕ) → n < 10 → read_from value (digit n) ≡ value * 10 + n
unfolding read_from
read_from-digit zero value h = refl
read_from-digit (suc zero) value h = refl
read_from-digit (suc (suc zero)) value h = refl
read_from-digit (suc (suc (suc zero))) value h = refl
read_from-digit (suc (suc (suc (suc zero)))) value h = refl
read_from-digit (suc (suc (suc (suc (suc zero))))) value h = refl
read_from-digit (suc (suc (suc (suc (suc (suc zero)))))) value h = refl
read_from-digit (suc (suc (suc (suc (suc (suc (suc zero))))))) value h = refl
read_from-digit (suc (suc (suc (suc (suc (suc (suc (suc zero)))))))) value h = refl
read_from-digit (suc (suc (suc (suc (suc (suc (suc (suc (suc zero))))))))) value h = refl
read_from-digit (suc (suc (suc (suc (suc (suc (suc (suc (suc (suc n)))))))))) value h = omega arith

-- One digit more.
read_from-more :
    (fuel n : ℕ) (small : Bool)
    → ltb n 10 ≡ small
    → (small ≡ false → read_from 0 (digits fuel (n / 10)) ≡ n / 10)
    → read_from 0 (if small then digit n else digits fuel (n / 10) ++ₛ digit (n % 10)) ≡ n
read_from-more fuel n true e rest = read_from-digit n 0 (ground arith) ∙ omega arith
read_from-more fuel n false e rest =
    read_from-append (digits fuel (n / 10)) (digit (n % 10)) 0
    ∙ rw (rest refl) (read_from-digit (n % 10) (n / 10) (omega arith) ∙ omega arith)

read_from-digits : (fuel n : ℕ) → n < fuel → read_from 0 (digits fuel n) ≡ n
unfolding digits
read_from-digits zero n h = omega arith
read_from-digits (suc fuel) n h =
    read_from-more fuel n (ltb n 10) refl (λ e. read_from-digits fuel (n / 10) (ground arith))

pub int_of_text-decimal : (n : ℕ) → int_of_text (json_str (decimal n)) ≡ some n
unfolding decimal
int_of_text-decimal n = rw (read_from-digits (suc n) n (omega arith)) refl
