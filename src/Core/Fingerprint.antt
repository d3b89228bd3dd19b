-- ===== src/Core/Fingerprint.antt =====
-- crates/unlinger-core/src/fingerprint.rs: FNV-1a over separated parts, modulo 2^64.
pub mod Order
use Prim.Native.Nat.{bit_xor}
use Prim.Native.Char.{Char}
use unlinger.Prelude.{
  ℕ, zero, suc, ◌*◌, ◌/◌, ◌%◌, ◌^◌, Bool, true, false, List, [], ◌∷◌, ◌++◌, map, String, ltb, ◌==◌,
  if◌then◌else◌, unwrap_or, decimal,
}
use unlinger.Core.Model.{ProcessIdentity}

abbrev fnv_offset_basis : ℕ
fnv_offset_basis = 0xcbf2_9ce4_8422_2325

abbrev fnv_prime : ℕ
fnv_prime = 0x0000_0100_0000_01b3

-- `hash ^= byte; hash = hash.wrapping_mul(FNV_PRIME)`.
unfoldable pub mix : ℕ → ℕ → ℕ
mix hash byte = bit_xor hash byte * fnv_prime % 2 ^ 64

unfoldable pub mix_bytes : ℕ → List ℕ → ℕ
unfolding mix
mix_bytes hash [] = hash
mix_bytes hash (b ∷ bs) = mix_bytes (mix hash b) bs

-- Each part is closed by a byte that UTF-8 text does not hold.
unfoldable pub mix_parts : ℕ → List (List ℕ) → ℕ
unfolding mix_bytes mix
mix_parts hash [] = hash
mix_parts hash (part ∷ parts) = mix_parts (mix (mix_bytes hash part) 0xff) parts

abbrev hex_digit : ℕ → Char
hex_digit d =
    if d == 0
    then "0"
    else if d == 1
    then "1"
    else if d == 2
    then "2"
    else if d == 3
    then "3"
    else if d == 4
    then "4"
    else if d == 5
    then "5"
    else if d == 6
    then "6"
    else if d == 7
    then "7"
    else if d == 8
    then "8"
    else if d == 9
    then "9"
    else if d == 10
    then "a"
    else if d == 11
    then "b"
    else if d == 12
    then "c"
    else if d == 13
    then "d"
    else if d == 14
    then "e"
    else "f"

-- The last `k` hexadecimal digits of a number, before a text.
hex_before : ℕ → ℕ → String → String
hex_before zero n s = s
hex_before (suc k) n s = hex_before k (n / 16) (String.◌∷◌ (hex_digit (n % 16)) s)

-- `{:016x}`.
unfoldable pub hex16 : ℕ → String
unfolding hex_before
hex16 n = hex_before 16 n String.[]

unfoldable pub fingerprint_parts : List (List ℕ) → String
unfolding mix_parts hex16
fingerprint_parts parts = hex16 (mix_parts fnv_offset_basis parts)

-- `"{}:{}:{}:{}"` of the fields of an identity.
unfoldable pub identity_row : ProcessIdentity → List ℕ
unfolding decimal
identity_row i =
    decimal i.pid
    ++ (b':' ∷ decimal i.started_at_unix_micros)
    ++ (b':' ∷ decimal (unwrap_or i.executable_device 0))
    ++ (b':' ∷ decimal (unwrap_or i.executable_inode 0))

unfoldable pub fingerprint_process_identity : ProcessIdentity → String
unfolding fingerprint_parts identity_row
fingerprint_process_identity i = fingerprint_parts (identity_row i ∷ [])

-- The order of byte strings, as `Ord` compares them.
unfoldable pub row_le : List ℕ → List ℕ → Bool
row_le [] ys = true
row_le (x ∷ xs) [] = false
row_le (x ∷ xs) (y ∷ ys) = if x == y then row_le xs ys else ltb x y

unfoldable pub insert_row : List ℕ → List (List ℕ) → List (List ℕ)
unfolding row_le
insert_row r [] = r ∷ []
insert_row r (s ∷ rows) = if row_le r s then r ∷ s ∷ rows else s ∷ insert_row r rows

-- `rows.sort_unstable()`.
unfoldable pub sort_rows : List (List ℕ) → List (List ℕ)
unfolding insert_row
sort_rows [] = []
sort_rows (r ∷ rows) = insert_row r (sort_rows rows)

unfoldable pub fingerprint_process_set : List ProcessIdentity → String
unfolding fingerprint_parts sort_rows identity_row
fingerprint_process_set ids = fingerprint_parts (sort_rows (map identity_row ids))
