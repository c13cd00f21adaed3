-- ===== src/Tests/Escape.antt =====
-- src/util/escape_json.cpp on a text with a quote, a line feed and a control character.
use tau_shell.Prelude.{◌≡◌, refl, none, some, [], ◌∷◌, ◌++◌, Bytes, codes, true, arith}
use tau_shell.Escape.{Converted, escape_json, escape_all, escape_char, escape_code, hex_4}
use tau_shell.Escape.Laws.{read_string, read_string-escape_json}

-- ASCII is its own conversion.
abbrev ascii : Bytes → Converted
ascii text = record { succeeded = true; insize = 0; outsize = 0; wide = text }

abbrev text : Bytes
text = codes "a\"" ++ 10 ∷ 1 ∷ []

escaped : escape_json (some ascii) text ≡ codes "a\\\"\\n\\u0001"
unfolding escape_json escape_all escape_char escape_code hex_4
escaped = refl

not_opened : escape_json none text ≡ codes "(iconv error)"
unfolding escape_json
not_opened = refl

-- A byte order mark comes first: the three bytes of a quote and an accented letter are three numbers.
abbrev marked : Bytes → Converted
marked input = record { succeeded = true; insize = 0; outsize = 0; wide = 65279 ∷ 34 ∷ 233 ∷ [] }

-- A quote that is not escaped, and a control character, are no content of a string.
raw_quote : read_string (codes "a\"") ≡ none
unfolding read_string
raw_quote = refl

raw_control : read_string (1 ∷ []) ≡ none
unfolding read_string
raw_control = refl

read_string-escape_json_example :
    read_string (escape_json (some marked) (34 ∷ 195 ∷ 169 ∷ [])) ≡ some (65279 ∷ 34 ∷ 233 ∷ [])
read_string-escape_json_example =
    read_string-escape_json marked 34 (195 ∷ 169 ∷ []) refl refl (omega arith) (ground arith)
