-- ===== src/Resolver/Mdns.antt =====
-- android/src/main/kotlin/com/example/lan_scan/networkUtils/MDNSResolver.kt. A name is the list of its
-- characters; the names that are written are of ASCII characters, which are their own bytes.
pub mod Ends
pub mod RoundTrip
pub mod Runs
pub mod Response
use lan_scan.Base.{
  ℕ, zero, suc, ◌+◌, ◌-◌, ◌*◌, ◌/◌, ◌%◌, ◌^◌, ltb, leb, ◌==◌, not, ◌&&◌, Option, none, some, List,
  [], ◌∷◌, ◌++◌, length, take, drop, if◌then◌else◌, ℤ, pos, negsuc, sub_ℕ,
}
use lan_scan.Resolver.Attempt.{
  Attempt, value, io_exception, exception, out_of_fuel, ◌>>=◌, Names, null, names, at, part,
  received_into, received_length,
}
use lan_scan.Text.Codes.{codes}
use lan_scan.Text.Decimal.{decimal}

-- `writeName`, where `label` are the characters from `s` on that the search for a dot has passed.
unfoldable pub write_from : (label name : List ℕ) → List ℕ
write_from label [] = (length label % 2 ^ 8) ∷ (label ++ (0 ∷ []))
write_from label (c ∷ cs) =
    let next_label = write_from [] cs in
    let same_label = write_from (label ++ (c ∷ [])) cs in
    if c == b'.' then (length label % 2 ^ 8) ∷ (label ++ next_label) else same_label

unfoldable pub write_name : List ℕ → List ℕ
unfolding write_from
write_name name = write_from [] name

-- `reverseName`, of the four bytes of an address
unfoldable pub reverse_name : (a b c d : ℕ) → List ℕ
reverse_name a b c d =
    decimal d
    ++ (codes "."
        ++ (decimal c
            ++ (codes "." ++ (decimal b ++ (codes "." ++ (decimal a ++ codes ".in-addr.arpa"))))))

unfoldable pub dns_request : (id : ℕ) → List ℕ → List ℕ
unfolding write_name
dns_request id name =
    (id / 2 ^ 8 % 2 ^ 8)
    ∷ (id % 2 ^ 8)
    ∷ ((0 ∷ 0 ∷ 0 ∷ 1 ∷ 0 ∷ 0 ∷ 0 ∷ 0 ∷ 0 ∷ 0 ∷ []) ++ (write_name name ++ (0 ∷ 12 ∷ 0 ∷ 1 ∷ [])))

-- A Byte as an Int, by its lower 16 bits, which are all that `writeShort` writes.
unfoldable pub signed_byte : ℕ → ℕ
signed_byte b = if ltb b (2 ^ 7) then b else 2 ^ 16 - 2 ^ 8 + b

-- `addr[2] * 0xFF + addr[3]`
unfoldable pub request_id : (c d : ℕ) → ℕ
unfolding signed_byte
request_id c d = (signed_byte c * 0xFF + signed_byte d) % 2 ^ 16

module _ (decode : List ℕ → List ℕ) where
  -- The loop of `decodeName` from `i` to `end`. A round takes a byte at least, so one more than there
  -- are bytes is enough. A Byte above 127 is a negative length, for which `String` throws.
  unfoldable pub decode_from : (fuel : ℕ) → List ℕ → (i end : ℕ) → (s : List ℕ) → Attempt (List ℕ)
  unfolding at part
  decode_from zero bytes i end s = out_of_fuel
  decode_from (suc fuel) bytes i end s =
      let round = (do
        len ← at bytes i
        let rest = do
          label ← (if ltb len (2 ^ 7) then part bytes (i + 1) len else exception)
          decode_from fuel bytes (i + len + 1) end (s ++ (decode label ++ codes "."))
        if len == 0 then value s else rest) in
      if ltb i end then round else value s

  -- `s.setLength(s.length - 1)`
  unfoldable pub without_last : List ℕ → Attempt (List ℕ)
  without_last s = if length s == 0 then exception else value (take (length s - 1) s)

  -- `StringBuilder` takes no negative capacity.
  unfoldable pub decode_name : List ℕ → (offset : ℕ) → (count : ℤ) → Attempt (List ℕ)
  unfolding decode_from without_last
  decode_name bytes offset (negsuc n) = exception
  decode_name bytes offset (pos n) =
      decode_from (suc (length bytes)) bytes offset (offset + n) [] >>= without_last

  -- What `resolve` does with the response of `length` bytes in its array.
  unfoldable pub read_response :
      (request response : List ℕ) (length name_length : ℕ) → Attempt Names
  unfolding decode_name
  read_response request response count name_length = do
    a ← at response 0
    b ← at response 1
    c ← at request 0
    d ← at request 1
    num_queries ← at response 5
    let offset = (if num_queries == 0 then 12 + name_length else length request) + 2 + 2 + 2 + 4 + 2
    let decoded = do
      name ← decode_name response offset (sub_ℕ count offset)
      value (names (some name) [])
    if not (a == c) && not (b == d) then value null else decoded

  -- `resolve` of the address a.b.c.d; `answer` is the datagram that arrives, and `none` a timeout.
  unfoldable pub resolve : (a b c d : ℕ) → (answer : Option (List ℕ)) → Attempt Names
  unfolding read_response dns_request request_id reverse_name received_into
  resolve a b c d none = io_exception
  resolve a b c d (some datagram) =
      let name = reverse_name a b c d in
      read_response (dns_request (request_id c d) name) (received_into 512 datagram)
        (received_length 512 datagram) (length name)
