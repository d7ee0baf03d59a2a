-- ===== src/Mfa/Totp.antt =====
-- internal/mfa/totp.go: the codes of an authenticator and how one is matched. Base32 and HMAC-SHA-1 are
-- parameters. Times are microseconds since 1970.
use dwh_v.Common.{
  ℕ, zero, suc, ◌+◌, ◌-◌, ◌*◌, ◌/◌, ◌%◌, ◌^◌, Bool, true, false, ◌&&◌, String, str_eq, Option, none,
  some, List, [], ◌∷◌, if◌then◌else◌, ◌==◌, leb, ltb,
}
use Prim.Native.String.{[] as empty_text, ◌∷◌ as ◌+>◌, len}
use Prim.Native.Char.{Char, code}

abbrev pub second : ℕ
second = 1000000

abbrev pub challenge_lifetime : ℕ
challenge_lifetime = 5 * 60 * second

abbrev pub freshness : ℕ
freshness = 10 * 60 * second

abbrev pub max_failures : ℕ
max_failures = 5

-- `Recent`; `none` is the zero time.
abbrev pub recent : Option ℕ → ℕ → Bool
recent none now = false
recent (some verified) now = leb verified now && leb (now - verified) freshness

-- An `int64`.
pub data ℤ : Type 0 where
  pos : ℕ → ℤ
  negsuc : ℕ → ℤ

abbrev pub less : ℤ → ℤ → Bool
less (pos m) (pos n) = ltb m n
less (pos m) (negsuc n) = false
less (negsuc m) (pos n) = true
less (negsuc m) (negsuc n) = ltb n m

abbrev pub before_first : ℤ
before_first = negsuc 0

-- `uint64(counter)`
abbrev pub wrapped : ℤ → ℕ
wrapped (pos n) = n % 2 ^ 64
wrapped (negsuc n) = 2 ^ 64 - 1 - n % 2 ^ 64

-- `binary.BigEndian.PutUint64`, for any number of bytes.
abbrev pub big_endian : ℕ → ℕ → List ℕ
big_endian zero n = []
big_endian (suc k) n = n / 2 ^ (8 * k) % 256 ∷ big_endian k n

pub record Crypto : Type 0 where
  pub decode_base32 : String → Option (List ℕ)
  pub hmac_sha1 : List ℕ → List ℕ → List ℕ

abbrev pub last : List ℕ → ℕ
last [] = 0
last (x ∷ []) = x
last (x ∷ y ∷ ys) = last (y ∷ ys)

-- `binary.BigEndian.Uint32(digest[offset:offset+4]) & 0x7fffffff`; a slice out of range has no value.
abbrev pub truncated : ℕ → List ℕ → Option ℕ
truncated zero (a ∷ b ∷ c ∷ d ∷ _) = some ((((a * 256 + b) * 256 + c) * 256 + d) % 2 ^ 31)
truncated zero _ = none
truncated (suc n) [] = none
truncated (suc n) (x ∷ xs) = truncated n xs

abbrev pub char_at : ℕ → String → Char
char_at n empty_text = "0"
char_at zero (c +> cs) = c
char_at (suc n) (c +> cs) = char_at n cs

abbrev pub digit : ℕ → Char
digit n = char_at (n % 10) "0123456789"

-- `fmt.Sprintf("%06d", value)`, below a million.
abbrev pub six_digits : ℕ → String
six_digits value =
    digit (value / 100000)
    +> digit (value / 10000)
    +> digit (value / 1000)
    +> digit (value / 100)
    +> digit (value / 10)
    +> digit value
    +> empty_text

-- `Code`
unfoldable pub totp_code : Crypto → String → ℤ → Option String
totp_code k secret counter = elim (k.decode_base32 secret) [
  | none ↦ none
  | some key ↦
      let digest = k.hmac_sha1 key (big_endian 8 (wrapped counter)) in
      elim (truncated (last digest % 16) digest) [
        | none ↦ none
        | some value ↦ some (six_digits (value % 1000000))
      ]
]

abbrev pub all_digits : String → Bool
all_digits empty_text = true
all_digits (c +> cs) = leb 48 (code c) && leb (code c) 57 && all_digits cs

-- `current - 1`
abbrev pub previous : ℕ → ℤ
previous zero = negsuc 0
previous (suc n) = pos n

abbrev pub code_is : Crypto → String → String → ℤ → Bool
code_is k secret input counter = elim (totp_code k secret counter) [
  | none ↦ false
  | some expected ↦ str_eq input expected
]

-- The loop of `Match` over the counters.
unfoldable pub match_in : Crypto → String → String → ℤ → List ℤ → Option ℤ
match_in k secret input last_used [] = none
match_in k secret input last_used (c ∷ cs) =
    let rest = match_in k secret input last_used cs in
    if code_is k secret input c then (if less last_used c then some c else none) else rest

abbrev pub window : ℕ → List ℤ
window current = pos current ∷ previous current ∷ pos (current + 1) ∷ []

-- `Match`: the counter, if the code is valid.
unfoldable pub match_code : Crypto → String → String → ℕ → ℤ → Option ℤ
unfolding match_in
match_code k secret input now last_used =
    if len input == 6 && all_digits input
    then match_in k secret input last_used (window (now / second / 30))
    else none
