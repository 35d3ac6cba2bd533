-- ===== src/Receipt/Json.antt =====
-- What store.go relies on of encoding/json for a `Record`: `Marshal` and `Unmarshal`.
use void_protocol_oss.Base.{ℕ, ◌+◌, ◌*◌, ◌≤◌, ◌<◌, ◌≡◌, ◌≢◌, Option, none, some, length, take, All}
use void_protocol_oss.Base.Bytes.{Bytes}
use void_protocol_oss.Receipt.Record.{Record, IsStorable, text_size}

abbrev pub newline : ℕ
newline = 10

abbrev pub carriage_return : ℕ
carriage_return = 13

-- A marshalled object is one line that ends in a brace; ASCII text takes at most six bytes a
-- character and comes back unchanged; a proper prefix of an object is no JSON text.
pub record Json : Type 0 where
  pub marshal : Record → Option Bytes
  pub unmarshal : Bytes → Option Record
  pub one_line :
      (r : Record) (l : Bytes)
      → IsStorable r
      → marshal r ≡ some l
      → All (λ b. (b ≢ newline) × (b ≢ carriage_return)) l
  pub line_size :
      (r : Record) (l : Bytes)
      → IsStorable r
      → marshal r ≡ some l
      → length l ≤ 6 * (text_size r + length r.dispatch_status) + 512
  pub round_trip :
      (r : Record) (l : Bytes) → IsStorable r → marshal r ≡ some l → unmarshal l ≡ some r
  pub prefix_invalid :
      (r : Record) (l : Bytes) (k : ℕ)
      → IsStorable r
      → marshal r ≡ some l
      → k < length l
      → unmarshal (take k l) ≡ none
