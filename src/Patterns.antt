-- ===== src/Patterns.antt =====
-- Python's tests on texts, character by character: prefixes, substrings, the character classes of the
-- program's patterns, and decimal notation.
use Prim.Native.Char.{code}
use tributo_broker_redis.Base.{
  ℕ, zero, suc, ◌+◌, ◌/◌, ◌%◌, String, ◌++ₛ◌, Bool, true, false, not, length, ◌&&◌, ◌||◌, List, [],
  ◌∷◌, ltb, leb, num_eq, if◌then◌else◌,
}

abbrev pub codes : String → List ℕ
codes String.[] = []
codes (String.◌∷◌ c s) = code c ∷ codes s

unfoldable pub starts_with : List ℕ → List ℕ → Bool
starts_with [] s = true
starts_with (p ∷ ps) [] = false
starts_with (p ∷ ps) (c ∷ s) = num_eq p c && starts_with ps s

-- `text[:n]`, by code points.
unfoldable pub take_text : ℕ → String → String
take_text zero s = String.[]
take_text (suc n) String.[] = String.[]
take_text (suc n) (String.◌∷◌ c s) = String.◌∷◌ c (take_text n s)

-- `pattern.search` for a pattern without operators, and `part in text`.
unfoldable pub found : List ℕ → List ℕ → Bool
unfolding starts_with
found p [] = starts_with p []
found p (c ∷ s) = starts_with p (c ∷ s) || found p s

unfoldable pub contains : String → String → Bool
unfolding found
contains s part = found (codes part) (codes s)

-- What `re.IGNORECASE` compares a character by, for the letters of the pattern: ASCII letters in
-- lower case, and the four other characters that Python takes for `i`, `s` and `k`.
unfoldable pub fold_case : ℕ → ℕ
fold_case c =
    if leb b'A' c && leb c b'Z'
    then c + 32
    else if num_eq c 0x130 || num_eq c 0x131
    then b'i'
    else if num_eq c 0x17F
    then b's'
    else if num_eq c 0x212A
    then b'k'
    else c

unfoldable pub fold_text : List ℕ → List ℕ
unfolding fold_case
fold_text [] = []
fold_text (c ∷ s) = fold_case c ∷ fold_text s

abbrev pub found_any : List (List ℕ) → List ℕ → Bool
found_any [] s = false
found_any (p ∷ ps) s = found p s || found_any ps s

-- `pattern.search(word)` for alternatives of small letters, under `re.IGNORECASE`.
unfoldable pub found_word : List (List ℕ) → String → Bool
unfolding found fold_text
found_word words s = found_any words (fold_text (codes s))

abbrev pub between : ℕ → ℕ → ℕ → Bool
between lo hi c = leb lo c && leb c hi

abbrev pub is_name_start : ℕ → Bool
is_name_start c = (between b'A' b'Z' c || between b'a' b'z' c) || num_eq c b'_'

abbrev pub is_name_char : ℕ → Bool
is_name_char c = is_name_start c || between b'0' b'9' c

unfoldable pub all_codes : (ℕ → Bool) → List ℕ → Bool
all_codes p [] = true
all_codes p (c ∷ s) = p c && all_codes p s

-- `[A-Za-z_][A-Za-z0-9_]*`
unfoldable pub is_env_name : List ℕ → Bool
unfolding all_codes
is_env_name [] = false
is_env_name (c ∷ s) = is_name_start c && all_codes is_name_char s

abbrev is_field_char : ℕ → Bool
is_field_char c = (is_name_char c || num_eq c b'.') || num_eq c b'-'

-- `[A-Za-z_][A-Za-z0-9_.-]{0,127}`
unfoldable pub is_field_name : List ℕ → Bool
unfolding all_codes
is_field_name [] = false
is_field_name (c ∷ s) = is_name_start c && all_codes is_field_char s && leb (length s) 127

abbrev is_path_char : ℕ → Bool
is_path_char c = not (num_eq c 0) && not (num_eq c 13) && not (num_eq c 10)

-- `[^\x00\r\n]+`
unfoldable pub is_mount_path : List ℕ → Bool
unfolding all_codes
is_mount_path [] = false
is_mount_path (c ∷ s) = all_codes is_path_char (c ∷ s)

-- `text.removeprefix(prefix)` where the prefix is there.
unfoldable pub without_prefix : List ℕ → List ℕ → List ℕ
without_prefix [] s = s
without_prefix (p ∷ ps) [] = []
without_prefix (p ∷ ps) (c ∷ s) = without_prefix ps s

-- `^(?:env:[A-Za-z_][A-Za-z0-9_]*|mount:/[^\x00\r\n]+)$`
unfoldable pub is_credential_reference : String → Bool
unfolding starts_with is_env_name is_mount_path without_prefix
is_credential_reference s =
    let cs = codes s in
    if starts_with (codes "env:") cs
    then is_env_name (without_prefix (codes "env:") cs)
    else starts_with (codes "mount:/") cs && is_mount_path (without_prefix (codes "mount:/") cs)

abbrev pub digit : ℕ → String
digit zero = "0"
digit (suc zero) = "1"
digit (suc (suc zero)) = "2"
digit (suc (suc (suc zero))) = "3"
digit (suc (suc (suc (suc zero)))) = "4"
digit (suc (suc (suc (suc (suc zero))))) = "5"
digit (suc (suc (suc (suc (suc (suc zero)))))) = "6"
digit (suc (suc (suc (suc (suc (suc (suc zero))))))) = "7"
digit (suc (suc (suc (suc (suc (suc (suc (suc zero)))))))) = "8"
digit _ = "9"

unfoldable pub digits : ℕ → ℕ → String
digits zero n = ""
digits (suc fuel) n =
    let rest = digits fuel (n / 10) in if ltb n 10 then digit n else rest ++ₛ digit (n % 10)

-- `str(n)`: a number has at most `n + 1` digits.
unfoldable pub decimal : ℕ → String
unfolding digits
decimal n = digits (suc n) n
