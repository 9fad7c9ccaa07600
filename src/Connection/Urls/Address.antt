-- ===== src/Connection/Urls/Address.antt =====
-- The host of a connection string is read as a name and a port.
use cloud_comp_project.Base.{
  ℕ, zero, suc, ◌+◌, ◌/◌, ◌%◌, ◌<◌, ◌≡◌, refl, sym, ap, ◌∙◌, true, false, ◌==◌, ltb, Bool-cases,
  inl, inr, Option, none, some, List, [], ◌∷◌, ◌++◌, Text, codes, decimal, digits_from, pos, arith,
}
use mathlib.Core.List.{append_assoc, append-nil}
use cloud_comp_project.Connection.Escape.{utf8, bytes}
use cloud_comp_project.Connection.{decimal_int}
use cloud_comp_project.Replication.Sql.Reading.Numbers.{number, decimal_read}

-- The name up to the first colon, and what is behind that.
unfoldable pub to_colon : List ℕ → Option (List ℕ × List ℕ)
to_colon [] = none
to_colon (b ∷ bs) = elim (b == 58) [
  | true ↦ some ([], bs)
  | false ↦ elim (to_colon bs) [ none ↦ none | some x ↦ some (b ∷ x.0, x.1) ]
]

-- The whole of a text as a number.
abbrev pub whole_number : ℕ × List ℕ → Option ℕ
whole_number (n, []) = some n
whole_number (n, b ∷ bs) = none

abbrev pub with_port : List ℕ → Option ℕ → Option (List ℕ × ℕ)
with_port name none = none
with_port name (some n) = some (name, n)

abbrev pub named_port : Option (List ℕ × List ℕ) → Option (List ℕ × ℕ)
named_port none = none
named_port (some (name, digits)) = with_port name (whole_number (number 0 digits))

-- A name, a colon, and a number to the end. A name with a colon of its own is not read.
pub read_address : List ℕ → Option (List ℕ × ℕ)
unfolding to_colon
read_address bs = named_port (to_colon bs)

abbrev pub HasNoColon : List ℕ → Type 0
HasNoColon [] = Unit
HasNoColon (c ∷ s) = ((c == 58) ≡ false) × HasNoColon s

append-HasNoColon : (bs cs : List ℕ) → HasNoColon bs → HasNoColon cs → HasNoColon (bs ++ cs)
append-HasNoColon [] cs h h' = h'
append-HasNoColon (b ∷ bs) cs (h, hs) h' = (h, append-HasNoColon bs cs hs h')

utf8-HasNoColon : (r : ℕ) → (r == 58) ≡ false → HasNoColon (utf8 r)
unfolding utf8
utf8-HasNoColon r h = ground arith

bytes-HasNoColon : (s : Text) → HasNoColon s → HasNoColon (bytes s)
unfolding bytes
bytes-HasNoColon [] h = tt
bytes-HasNoColon (r ∷ s) (h, hs) =
    append-HasNoColon (utf8 r) (bytes s) (utf8-HasNoColon r h) (bytes-HasNoColon s hs)

bytes-append : (s t : Text) → bytes (s ++ t) ≡ bytes s ++ bytes t
unfolding bytes
bytes-append [] t = refl
bytes-append (r ∷ s) t =
    ap (λ x. utf8 r ++ x) (bytes-append s t) ∙ sym (append_assoc (utf8 r) (bytes s) (bytes t))

-- Each character is its own byte.
abbrev IsAscii : Text → Type 0
IsAscii [] = Unit
IsAscii (c ∷ s) = (c < 128) × IsAscii s

bytes-IsAscii : (s : Text) → IsAscii s → bytes s ≡ s
unfolding bytes utf8
bytes-IsAscii [] h = refl
bytes-IsAscii (c ∷ s) (h, hs) =
    let small : ltb c 0x80 ≡ true = ground arith in rw small (ap (λ t. c ∷ t) (bytes-IsAscii s hs))

digits_from-IsAscii : (fuel n : ℕ) (out : Text) → IsAscii out → IsAscii (digits_from fuel n out)
unfolding digits_from
digits_from-IsAscii zero n out h = h
digits_from-IsAscii (suc fuel) n out h =
    let more : IsAscii ((48 + n % 10) ∷ out) = (omega arith, h) in
    elim (Bool-cases (n / 10 == 0)) [
      | inl last ↦ rw last more
      | inr goes ↦ rw goes (digits_from-IsAscii fuel (n / 10) ((48 + n % 10) ∷ out) more)
    ]

decimal-IsAscii : (n : ℕ) → IsAscii (decimal n)
unfolding decimal
decimal-IsAscii n = digits_from-IsAscii (n + 1) n [] tt

to_colon-append : (bs cs : List ℕ) → HasNoColon bs → to_colon (bs ++ 58 ∷ cs) ≡ some (bs, cs)
unfolding to_colon
to_colon-append [] cs h = refl
to_colon-append (b ∷ bs) cs (h, hs) = rw (to_colon, h, to_colon-append bs cs hs) refl

decimal_whole : (n : ℕ) → whole_number (number 0 (decimal n)) ≡ some n
decimal_whole n =
    ap (λ t. whole_number (number 0 t)) (sym (append-nil (decimal n)))
    ∙ ap whole_number (decimal_read n [] refl)

-- A host without a colon and its port, as the code joins them, are read back.
pub address_read :
    (host : Text) (n : ℕ)
    → HasNoColon host
    → read_address (bytes (host ++ (codes ":" ++ decimal_int (pos n)))) ≡ some (bytes host, n)
unfolding read_address codes decimal_int
address_read host n h =
    let port = bytes-IsAscii (58 ∷ decimal n) (omega arith, decimal-IsAscii n) in
    ap (λ t. named_port (to_colon t))
      (bytes-append host (58 ∷ decimal n) ∙ ap (λ t. bytes host ++ t) port)
    ∙ ap named_port (to_colon-append (bytes host) (decimal n) (bytes-HasNoColon host h))
    ∙ ap (with_port (bytes host)) (decimal_whole n)
