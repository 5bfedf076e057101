-- ===== src/Device/Id.antt =====
-- device/id.go: parsing a device name into a canonical identifier. A string is a list of Unicode
-- scalar values. The regular expression is written out as the matcher that it stands for: its four
-- words begin with different letters, so at most one of them can match.
pub mod Hex
pub mod Match
pub mod Spelling
pub mod Canonical
use Prim.Native.Char.{Char, code}
use webpa_common.Base.{
  append, ℕ, suc, ◌+◌, ◌*◌, ◌≡◌, refl, Bool, true, false, ◌&&◌, ◌||◌, if◌then◌else◌, ltb, leb, ◌==◌,
  Option, none, some, String, String_discrete, ite, Outcome, ok, err,
}

pub data Error : Type 0 where
  invalid_device_name missing_device_name_header : Error

abbrev pub length : String → ℕ
length String.[] = 0
length (String.◌∷◌ c s) = suc (length s)

-- `(?i)`: a letter of a word matches its upper case, and `s` also U+017F, the long s.
unfoldable pub folds : Char → Char → Bool
folds p c = code c == code p || code c + 32 == code p || (code p == b's' && code c == 0x17F)

-- `strings.ToLower` on a character that has matched.
pub lower : Char → Char → Char
lower p c = if code c == 0x17F then c else p

-- What has matched, in lower case, and what follows.
unfoldable pub match_word : String → String → Option (String × String)
unfolding folds lower
match_word String.[] s = some (String.[], s)
match_word (String.◌∷◌ p w) String.[] = none
match_word (String.◌∷◌ p w) (String.◌∷◌ c s) =
    let rest = match_word w s in
    if folds p c
    then elim rest [ none ↦ none | some (m, r) ↦ some (String.◌∷◌ (lower p c) m, r) ]
    else none

-- `[^/]+`, as far as it goes.
unfoldable pub until_slash : String → String
until_slash String.[] = String.[]
until_slash (String.◌∷◌ c s) =
    let rest = until_slash s in if code c == b'/' then String.[] else String.◌∷◌ c rest

-- `:` and a part that is not empty
pub id_part : String → Option String
unfolding until_slash
id_part String.[] = none
id_part (String.◌∷◌ c s) =
    if code c == b':'
    then ite (String_discrete (until_slash s) "") none (some (until_slash s))
    else none

-- The prefix in lower case, and the id part.
pub match_prefix : String → String → Option (String × String)
match_prefix w s = elim (match_word w s) [
  | none ↦ none
  | some (prefix, rest) ↦ elim (id_part rest) [ none ↦ none | some i ↦ some (prefix, i) ]
]

or_else : {A : Type 0} → Option A → Option A → Option A
or_else (some a) o = some a
or_else none o = o

-- `idPattern.FindStringSubmatch`
unfoldable pub find_submatch : String → Option (String × String)
unfolding match_prefix or_else id_part
find_submatch s =
    or_else (match_prefix "mac" s)
      (or_else (match_prefix "uuid" s) (or_else (match_prefix "dns" s) (match_prefix "serial" s)))

-- A digit, or a letter of `hexDigits` in lower case.
unfoldable pub is_lower_hex : Char → Bool
is_lower_hex c = leb b'0' (code c) && leb (code c) b'9' || leb b'a' (code c) && leb (code c) b'f'

-- `unicode.ToLower` on the upper-case letters of `hexDigits`.
unfoldable pub upper_hex : Char → Option Char
upper_hex c =
    if code c == b'A'
    then some "a"
    else if code c == b'B'
    then some "b"
    else if code c == b'C'
    then some "c"
    else if code c == b'D'
    then some "d"
    else if code c == b'E'
    then some "e"
    else if code c == b'F'
    then some "f"
    else none

-- A character of `hexDigits`, in lower case.
unfoldable pub lower_hex : Char → Option Char
unfolding is_lower_hex upper_hex
lower_hex c = if is_lower_hex c then some c else upper_hex c

-- `macDelimiters`
unfoldable pub is_delimiter : Char → Bool
is_delimiter c = code c == b':' || code c == b'-' || code c == b'.' || code c == b','

-- `strings.Map` with the function of `ParseID`, and whether there was an invalid character.
unfoldable pub map_mac : String → String × Bool
unfolding lower_hex is_delimiter
map_mac String.[] = (String.[], false)
map_mac (String.◌∷◌ c s) =
    let (rest, invalid) = map_mac s in
    elim (lower_hex c) [
      | some d ↦ (String.◌∷◌ d rest, invalid)
      | none ↦ if is_delimiter c then (rest, invalid) else (rest, true)
    ]

abbrev pub mac_length : ℕ
mac_length = 12

-- `fmt.Sprintf("%s:%s", prefix, idPart)`
abbrev pub render : String → String → String
render prefix i = append prefix (String.◌∷◌ ":" i)

canonical : String → String → Outcome Error String
unfolding map_mac
canonical prefix i =
    ite (String_discrete prefix "mac")
      (let (part, invalid) = map_mac i in
        if invalid || (if length part == mac_length then false else true)
        then err invalid_device_name
        else ok (render prefix part))
      (ok (render prefix i))

unfoldable pub parse_id : String → Outcome Error String
unfolding find_submatch canonical match_word
parse_id name = elim (find_submatch name) [
  | none ↦ err invalid_device_name
  | some (prefix, i) ↦ canonical prefix i
]

-- `IDHashParser`, given the header's value.
unfoldable pub id_hash_parser : String → Outcome Error String
unfolding parse_id
id_hash_parser device_name =
    ite (String_discrete device_name "") (err missing_device_name_header) (parse_id device_name)
