-- ===== src/Resolver/NetBios.antt =====
-- android/src/main/kotlin/com/example/lan_scan/networkUtils/NetBIOSResolver.kt.
pub mod Answers
pub mod Fields
pub mod Extract
pub mod Flag
mod Runs
use lan_scan.Base.{
  ℕ, zero, suc, ◌+◌, ◌-◌, ◌*◌, ◌/◌, ◌%◌, ◌^◌, ltb, leb, ◌==◌, not, ◌&&◌, ◌||◌, Option, none, some,
  List, [], ◌∷◌, ◌++◌, length, if◌then◌else◌, bit_and,
}
use lan_scan.Resolver.Attempt.{
  Attempt, value, io_exception, exception, out_of_fuel, ◌>>=◌, Names, null, names, at, part,
  received_into, received_length,
}
use lan_scan.Text.Codes.{codes}

abbrev pub response_type_pos : ℕ
response_type_pos = 47

abbrev pub response_type_nbtstat : ℕ
response_type_nbtstat = 33

abbrev pub response_base_len : ℕ
response_base_len = 57

abbrev pub response_name_len : ℕ
response_name_len = 15

abbrev pub response_name_block_len : ℕ
response_name_block_len = 18

-- `trim { it <= ' ' }`
unfoldable pub trim_start : List ℕ → List ℕ
trim_start [] = []
trim_start (c ∷ cs) = if leb c 32 then trim_start cs else c ∷ cs

-- Only spaces, or a text that ends with another character.
unfoldable pub trim_end : List ℕ → List ℕ
trim_end [] = []
trim_end (c ∷ cs) =
    let rest = trim_end cs in if (length rest == 0) && leb c 32 then [] else c ∷ rest

unfoldable pub trim : List ℕ → List ℕ
unfolding trim_start trim_end
trim text = trim_start (trim_end text)

-- An upper case hexadecimal digit, and `%02X` of a byte.
abbrev hex_upper : ℕ → ℕ
hex_upper d = if ltb d 10 then b'0' + d else b'A' + d - 10

abbrev pub hex_byte_upper : ℕ → List ℕ
hex_byte_upper b = hex_upper (b / 16) ∷ hex_upper (b % 16) ∷ []

-- `%02X` of each byte, with dashes between them.
abbrev pub dashed : List ℕ → List ℕ
dashed [] = []
dashed (b ∷ []) = hex_byte_upper b
dashed (b ∷ next ∷ rest) = hex_byte_upper b ++ (codes "-" ++ dashed (next ∷ rest))

module _ (response : List ℕ) where
  unfoldable pub name_byte : (i n : ℕ) → Attempt ℕ
  unfolding at
  name_byte i n = at response (response_base_len + response_name_block_len * i + n)

  unfoldable pub name_type : (i : ℕ) → Attempt ℕ
  unfolding at
  name_type i = at response (response_base_len + response_name_block_len * i + response_name_len)

  -- A Byte as an Int, as its 32 bits.
  abbrev pub extended : ℕ → ℕ
  extended b = if ltb b (2 ^ 7) then b else 2 ^ 32 - 2 ^ 8 + b

  -- As Kotlin reads the expression: `and` binds weaker than `+`.
  unfoldable pub name_flag : (i : ℕ) → Attempt ℕ
  unfolding at
  name_flag i = do
    a ← at response (response_base_len + response_name_block_len * i + response_name_len + 1)
    b ← at response (response_base_len + response_name_block_len * i + response_name_len + 2)
    value (bit_and (extended a) (0xFF + b * 0xFF))

  unfoldable pub mac_address : (name_count : ℕ) → Attempt (List ℕ)
  unfolding name_byte
  mac_address name_count = do
    a ← name_byte name_count 0
    b ← name_byte name_count 1
    c ← name_byte name_count 2
    d ← name_byte name_count 3
    e ← name_byte name_count 4
    f ← name_byte name_count 5
    value (dashed (a ∷ b ∷ c ∷ d ∷ e ∷ f ∷ []))

  module _ (decode : List ℕ → List ℕ) where
    unfoldable pub name : (i : ℕ) → Attempt (List ℕ)
    unfolding part trim
    name i = do
      bytes ← part response (response_base_len + response_name_block_len * i) response_name_len
      value (trim (decode bytes))

    -- `for (i in 1 until nameCount)` with `left` names left.
    unfoldable pub group_name : (left i : ℕ) → Attempt (Option (List ℕ))
    unfolding name_type name_flag name
    group_name zero i = value none
    group_name (suc left) i =
        let rest = group_name left (i + 1) in
        (do
          kind ← name_type i
          let found = do n ← name i; value (some n)
          let flagged = do flag ← name_flag i; if ltb 0 (bit_and flag 128) then found else rest
          if kind == 0x00 then flagged else rest)

    -- `for (i in nameCount - 1 downTo 1)`, where `i` is the next index.
    unfoldable pub user_name : (i : ℕ) → Attempt (Option (List ℕ))
    unfolding name_type name
    user_name zero = value none
    user_name (suc i) =
        let rest = user_name i in
        (do
          kind ← name_type (suc i)
          let found = do n ← name (suc i); value (some n)
          if kind == 0x03 then found else rest)

    -- `if (nameCount > 0) name(response, 0) else null`
    unfoldable pub computer_name : (name_count : ℕ) → Attempt (Option (List ℕ))
    unfolding name
    computer_name zero = value none
    computer_name (suc more) = do n ← name 0; value (some n)

    unfoldable pub extract_names : (name_count : ℕ) → Attempt Names
    unfolding computer_name group_name user_name mac_address
    extract_names name_count = do
      computer ← computer_name name_count
      group ← group_name (name_count - 1) 1
      user ← user_name (name_count - 1)
      mac ← mac_address name_count
      value (names computer (user ∷ group ∷ some mac ∷ []))

-- What `resolve` does with the response of `count` bytes in its array.
unfoldable pub read_response :
    (decode : List ℕ → List ℕ) (response : List ℕ) (count : ℕ) → Attempt Names
unfolding extract_names
read_response decode response count =
    let typed = (do
      kind ← at response response_type_pos
      let counted = do
        name_count ← at response (response_base_len - 1)
        let extracted = extract_names response decode name_count
        (if ltb count (response_base_len + response_name_block_len * name_count)
            then value null
            else extracted)
      if not (kind == response_type_nbtstat) then value null else counted) in
    if ltb count response_base_len then value null else typed

-- `resolve`; `answer` is the datagram that arrives, and `none` a timeout.
unfoldable pub resolve : (decode : List ℕ → List ℕ) (answer : Option (List ℕ)) → Attempt Names
unfolding read_response received_into
resolve decode none = io_exception
resolve decode (some datagram) =
    read_response decode (received_into 1024 datagram) (received_length 1024 datagram)
