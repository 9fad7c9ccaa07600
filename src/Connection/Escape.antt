-- ===== src/Connection/Escape.antt =====
-- What package `net/url` of Go's library does with the parts of a URL, on the bytes of a string.
use cloud_comp_project.Base.{
  ℕ, ◌+◌, ◌/◌, ◌%◌, Bool, ◌&&◌, ◌||◌, ◌==◌, leb, ltb, List, [], ◌∷◌, ◌++◌, Text, if◌then◌else◌,
}

-- The bytes of a code point in UTF-8; what is no code point is written as U+FFFD.
unfoldable pub utf8 : ℕ → List ℕ
utf8 r =
    if ltb r 0x80
    then r ∷ []
    else if ltb r 0x800
    then (0xc0 + r / 64) ∷ (0x80 + r % 64) ∷ []
    else if (leb 0xd800 r && leb r 0xdfff) || leb 0x110000 r
    then 0xef ∷ 0xbf ∷ 0xbd ∷ []
    else if ltb r 0x10000
    then (0xe0 + r / 4096) ∷ (0x80 + r / 64 % 64) ∷ (0x80 + r % 64) ∷ []
    else (0xf0 + r / 262144) ∷ (0x80 + r / 4096 % 64) ∷ (0x80 + r / 64 % 64) ∷ (0x80 + r % 64) ∷ []

unfoldable pub bytes : Text → List ℕ
unfolding utf8
bytes [] = []
bytes (r ∷ s) = utf8 r ++ bytes s

-- the parts of a URL that are escaped in ways of their own
pub data Mode : Type 0 where
  encode_user_password encode_host encode_path encode_query_component : Mode

-- letters, digits, '-', '.', '_' and '~'
unfoldable pub is_unreserved : ℕ → Bool
is_unreserved c =
    (leb 97 c && leb c 122)
    || (leb 65 c && leb c 90)
    || (leb 48 c && leb c 57)
    || c == 45
    || c == 46
    || c == 95
    || c == 126

-- '$', '&', '+', ',', ';' and '='
unfoldable pub is_sub_delim : ℕ → Bool
is_sub_delim c = c == 36 || c == 38 || c == 43 || c == 44 || c == 59 || c == 61

-- `shouldEscape`, negated
unfoldable pub stays : Mode → ℕ → Bool
unfolding is_unreserved is_sub_delim
stays encode_user_password c = is_unreserved c || is_sub_delim c
stays encode_path c = is_unreserved c || is_sub_delim c || c == 47 || c == 58 || c == 64
stays encode_host c =
    is_unreserved c
    || is_sub_delim c
    || c == 58
    || c == 33
    || c == 39
    || c == 40
    || c == 41
    || c == 42
    || c == 91
    || c == 93
    || c == 60
    || c == 62
    || c == 34
stays encode_query_component c = is_unreserved c

-- a digit of base 16
unfoldable pub upper_hex : ℕ → ℕ
upper_hex d = if ltb d 10 then 48 + d else 55 + d

unfoldable pub escape_byte : Mode → ℕ → Text
unfolding stays upper_hex
escape_byte encode_query_component c =
    if c == 32
    then 43 ∷ []
    else if stays encode_query_component c
    then c ∷ []
    else 37 ∷ upper_hex (c / 16) ∷ upper_hex (c % 16) ∷ []
escape_byte mode c =
    if stays mode c then c ∷ [] else 37 ∷ upper_hex (c / 16) ∷ upper_hex (c % 16) ∷ []

unfoldable pub escape_bytes : Mode → List ℕ → Text
unfolding escape_byte
escape_bytes mode [] = []
escape_bytes mode (c ∷ s) = escape_byte mode c ++ escape_bytes mode s

-- `escape`
abbrev pub escape : Mode → Text → Text
escape mode s = escape_bytes mode (bytes s)
