-- ===== src/Connection/Reading.antt =====
-- How a URL is read: the parts between its separators, with their escapes.
use mathlib.Core.List.{append_assoc}
use cloud_comp_project.Base.{
  ℕ, ◌+◌, ◌-◌, ◌*◌, ◌/◌, ◌%◌, ◌<◌, ◌≡◌, refl, sym, ap, ◌∙◌, Bool, true, false, ◌&&◌, ◌==◌, leb,
  Bool-cases, inl, inr, ◌⊎◌, ==_iff, List, [], ◌∷◌, ◌++◌, Text, arith, if◌then◌else◌,
}
use cloud_comp_project.Connection.Escape.{
  utf8, bytes, Mode, encode_user_password, encode_host, encode_path, encode_query_component,
  is_unreserved, stays, upper_hex, escape_byte, escape_bytes, escape,
}

-- Inside an escape: behind the percent sign, or behind its first digit.
pub data Place : Type 0 where
  plain percent : Place
  first_digit : ℕ → Place

abbrev prefixed : ℕ → List ℕ × Text → List ℕ × Text
prefixed b (bs, rest) = (b ∷ bs, rest)

unfoldable unhex : ℕ → ℕ
unhex c = if leb 65 c then c - 55 else c - 48

-- a character outside an escape
abbrev pub literal : Bool → ℕ → ℕ
literal plus c = if plus && c == 43 then 32 else c

-- The bytes up to a separator, and the rest from there; with `plus` a plus sign is a space.
unfoldable pub read_part : (ℕ → Bool) → Bool → Place → Text → List ℕ × Text
unfolding unhex
read_part stops plus st [] = ([], [])
read_part stops plus plain (c ∷ s) = elim (stops c) [
  | true ↦ ([], c ∷ s)
  | false ↦ elim (c == 37) [
    | true ↦ read_part stops plus percent s
    | false ↦ prefixed (literal plus c) (read_part stops plus plain s)
  ]
]
read_part stops plus percent (c ∷ s) = read_part stops plus (first_digit (unhex c)) s
read_part stops plus (first_digit h) (c ∷ s) =
    prefixed (16 * h + unhex c) (read_part stops plus plain s)

hex_read : (d : ℕ) → d < 16 → unhex (upper_hex d) ≡ d
unfolding unhex upper_hex
hex_read d h = ground arith

abbrev pub IsQuery : Mode → Type 0
IsQuery encode_query_component = Unit
IsQuery _ = ⊥

-- What stays as it is separates nothing, and is no sign of an escape.
pub record IsReadable (mode : Mode) (stops : ℕ → Bool) (plus : Bool) : Type 0 where
  pub apart : (c : ℕ) → stays mode c ≡ true → stops c ≡ false
  pub no_percent : (c : ℕ) → stays mode c ≡ true → (c == 37) ≡ false
  pub no_plus : (c : ℕ) → stays mode c ≡ true → literal plus c ≡ c
  pub percent_apart : stops 37 ≡ false
  pub space : IsQuery mode → (stops 43 ≡ false) × (literal plus 43 ≡ 32)

-- Each is a byte.
abbrev pub AreBytes : List ℕ → Type 0
AreBytes [] = Unit
AreBytes (b ∷ bs) = (b < 256) × AreBytes bs

append-AreBytes : (bs cs : List ℕ) → AreBytes bs → AreBytes cs → AreBytes (bs ++ cs)
append-AreBytes [] cs h h' = h'
append-AreBytes (b ∷ bs) cs (h, hs) h' = (h, append-AreBytes bs cs hs h')

utf8-AreBytes : (r : ℕ) → AreBytes (utf8 r)
unfolding utf8
utf8-AreBytes r = ground arith

pub bytes-AreBytes : (s : Text) → AreBytes (bytes s)
unfolding bytes
bytes-AreBytes [] = tt
bytes-AreBytes (r ∷ s) = append-AreBytes (utf8 r) (bytes s) (utf8-AreBytes r) (bytes-AreBytes s)

module _ (stops : ℕ → Bool) (plus : Bool) where
  abbrev reads : Text → List ℕ × Text
  reads s = read_part stops plus plain s

  escaped_read :
      (b : ℕ) (s : Text)
      → stops 37 ≡ false
      → b < 256
      → reads (37 ∷ upper_hex (b / 16) ∷ upper_hex (b % 16) ∷ s) ≡ prefixed b (reads s)
  unfolding read_part
  escaped_read b s apart small =
      let whole : 16 * unhex (upper_hex (b / 16)) + unhex (upper_hex (b % 16)) ≡ b =
        omega (arith, hex_read (b / 16) (omega arith), hex_read (b % 16) (omega arith)) in
      rw (read_part, apart) (ap (λ n. prefixed n (reads s)) whole)

  literal_read :
      (b c : ℕ) (s : Text)
      → stops c ≡ false
      → (c == 37) ≡ false
      → literal plus c ≡ b
      → reads (c ∷ s) ≡ prefixed b (reads s)
  unfolding read_part
  literal_read b c s apart other same =
      rw (read_part, apart, other) (ap (λ n. prefixed n (reads s)) same)

stays_as : (mode : Mode) (b : ℕ) → stays mode b ≡ true → escape_byte mode b ≡ b ∷ []
unfolding escape_byte stays is_unreserved
stays_as encode_user_password b h = rw h refl
stays_as encode_host b h = rw h refl
stays_as encode_path b h = rw h refl
stays_as encode_query_component b h =
    let no_space : (b == 32) ≡ false = ground arith in rw (no_space, h) refl

-- An escape of a byte, or the plus sign for a space in a query.
escaped_as :
    (mode : Mode) (b : ℕ)
    → stays mode b ≡ false
    → (escape_byte mode b ≡ 37 ∷ upper_hex (b / 16) ∷ upper_hex (b % 16) ∷ [])
      ⊎ (IsQuery mode × (b ≡ 32) × (escape_byte mode b ≡ 43 ∷ []))
unfolding escape_byte
escaped_as encode_user_password b h = inl (rw h refl)
escaped_as encode_host b h = inl (rw h refl)
escaped_as encode_path b h = inl (rw h refl)
escaped_as encode_query_component b h = elim (Bool-cases (b == 32)) [
  | inl space ↦ inr (tt, (==_iff b 32).0 space, rw space refl)
  | inr other ↦ inl (rw (other, h) refl)
]

module _ (mode : Mode) (stops : ℕ → Bool) (plus : Bool)
    (readable : IsReadable mode stops plus) where
  byte_read :
      (b : ℕ) (s : Text)
      → b < 256
      → read_part stops plus plain (escape_byte mode b ++ s)
        ≡ prefixed b (read_part stops plus plain s)
  byte_read b s small = elim (Bool-cases (stays mode b)) [
    | inl same ↦
        ap (λ t. read_part stops plus plain (t ++ s)) (stays_as mode b same)
        ∙ literal_read stops plus b b s (readable.apart b same) (readable.no_percent b same)
            (readable.no_plus b same)
    | inr other ↦ elim (escaped_as mode b other) [
      | inl e ↦
          ap (λ t. read_part stops plus plain (t ++ s)) e
          ∙ escaped_read stops plus b s readable.percent_apart small
      | inr (query, space, e) ↦
          let (apart, reads_space) = readable.space query in
          ap (λ t. read_part stops plus plain (t ++ s)) e
          ∙ literal_read stops plus b 43 s apart refl (reads_space ∙ sym space)
    ]
  ]

  bytes_read :
      (bs : List ℕ) (s : Text)
      → AreBytes bs
      → read_part stops plus plain s ≡ ([], s)
      → read_part stops plus plain (escape_bytes mode bs ++ s) ≡ (bs, s)
  unfolding escape_bytes
  bytes_read [] s h ends = ends
  bytes_read (b ∷ bs) s (h, hs) ends =
      ap (read_part stops plus plain) (append_assoc (escape_byte mode b) (escape_bytes mode bs) s)
      ∙ byte_read b (escape_bytes mode bs ++ s) h
      ∙ ap (prefixed b) (bytes_read bs s hs ends)

  -- What `escape` gives is read back as the bytes of the string, up to what follows.
  pub escape-read :
      (t s : Text)
      → read_part stops plus plain s ≡ ([], s)
      → read_part stops plus plain (escape mode t ++ s) ≡ (bytes t, s)
  escape-read t s ends = bytes_read (bytes t) s (bytes-AreBytes t) ends

pub read_stop :
    (stops : ℕ → Bool) (plus : Bool) (c : ℕ) (s : Text)
    → stops c ≡ true
    → read_part stops plus plain (c ∷ s) ≡ ([], c ∷ s)
unfolding read_part
read_stop stops plus c s h = rw (read_part, h) refl
