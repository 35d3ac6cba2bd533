-- ===== src/Receipt/SampleJson.antt =====
-- A concrete line format that meets the laws of `Json`: each byte as two letters, each field
-- ended by a comma, the whole ended by a brace.
use void_protocol_oss.Base.{
  ℕ, zero, suc, ◌+◌, ◌-◌, ◌*◌, ◌/◌, ◌%◌, ◌≤◌, ◌<◌, ◌≡◌, ◌≢◌, ◌⊎◌, inl, inr, refl, ap, some, none,
  false, Option, List, [], ◌∷◌, ◌++◌, length, length-append, take, All, All-append, eq_of_some, sym,
  ◌==◌, if◌then◌else◌, arith,
}
use mathlib.Core.List.{append_assoc}
use mathlib.Core.Path.{subst}
use void_protocol_oss.Base.Bytes.{Bytes, IsByte}
use void_protocol_oss.Base.Words.{le_bytes, le_value, le_bytes-All, le_value-le_bytes}
use void_protocol_oss.Receipt.Record.{Record, IsStorable, IsAscii, text_size}
use void_protocol_oss.Receipt.Store.Lands.{Marshals}
use void_protocol_oss.Receipt.Json.{Json, newline, carriage_return}

abbrev pub comma : ℕ
comma = b','

abbrev pub brace : ℕ
brace = b'}'

unfoldable pub write_field : Bytes → Bytes
write_field [] = comma ∷ []
write_field (b ∷ bs) = (65 + b / 16) ∷ (65 + b % 16) ∷ write_field bs

unfoldable pub write_fields : List Bytes → Bytes
write_fields [] = []
write_fields (f ∷ fs) = write_field f ++ write_fields fs

unfoldable pub fields : Record → List Bytes
fields r =
    r.payment_id
    ∷ r.settlement_tx_hash
    ∷ le_bytes 8 r.sat_id
    ∷ r.amount
    ∷ le_bytes 8 r.asset_id
    ∷ r.wallet
    ∷ r.packet_c_hex
    ∷ le_bytes 8 r.block_number
    ∷ le_bytes 8 r.ts_ms
    ∷ r.dispatch_status
    ∷ []

unfoldable pub marshal : Record → Option Bytes
unfolding fields write_fields write_field
marshal r = some (write_fields (fields r) ++ (brace ∷ []))

abbrev pub add_field : Option (List Bytes) → Option (List Bytes)
add_field none = none
add_field (some fs) = some ([] ∷ fs)

abbrev pub add_byte : ℕ → Option (List Bytes) → Option (List Bytes)
add_byte b none = none
add_byte b (some []) = none
add_byte b (some (f ∷ fs)) = some ((b ∷ f) ∷ fs)

unfoldable pub read : Bytes → Option (List Bytes)
read [] = none
read (c ∷ []) = if c == brace then some [] else none
read (c ∷ d ∷ cs) =
    let ended = read (d ∷ cs) in
    let more = read cs in
    if c == comma then add_field ended else add_byte ((c - 65) * 16 + (d - 65)) more

unfoldable pub of_fields : List Bytes → Option Record
of_fields (a ∷ b ∷ c ∷ d ∷ e ∷ f ∷ g ∷ h ∷ i ∷ j ∷ []) = some (record {
  payment_id = a;
  settlement_tx_hash = b;
  sat_id = le_value c;
  amount = d;
  asset_id = le_value e;
  wallet = f;
  packet_c_hex = g;
  block_number = le_value h;
  ts_ms = le_value i;
  dispatch_status = j;
})
of_fields _ = none

abbrev pub of_read : Option (List Bytes) → Option Record
of_read none = none
of_read (some fs) = of_fields fs

unfoldable pub unmarshal : Bytes → Option Record
unfolding read of_fields
unmarshal l = of_read (read l)

abbrev IsText : ℕ → Type 0
IsText c = (c ≡ comma) ⊎ ((65 ≤ c) × (c < 82))

not_comma : (c : ℕ) → 65 ≤ c → (c == comma) ≡ false
not_comma c h = ground arith

digits_back : (b : ℕ) → (65 + b / 16 - 65) * 16 + (65 + b % 16 - 65) ≡ b
digits_back b = omega arith

read_pair : (b : ℕ) (cs : Bytes) → read ((65 + b / 16) ∷ (65 + b % 16) ∷ cs) ≡ add_byte b (read cs)
unfolding read
read_pair b cs =
    rw (not_comma (65 + b / 16) (omega arith)) (ap (λ x. add_byte x (read cs)) (digits_back b))

-- `read` undoes the writing of fields.
read-write_field :
    (f : Bytes) (rest : Bytes) (fs : List Bytes)
    → All IsByte f
    → rest ≢ []
    → read rest ≡ some fs
    → read (write_field f ++ rest) ≡ some (f ∷ fs)
unfolding read write_field
read-write_field [] [] fs h n e = absurd (n refl)
read-write_field [] (d ∷ rest) fs h n e = ground arith
read-write_field (b ∷ bs) rest fs h n e =
    rw (read_pair b (write_field bs ++ rest), read-write_field bs rest fs h.1 n e) refl

append-ne-nil : (xs : Bytes) (y : ℕ) → xs ++ (y ∷ []) ≢ []
append-ne-nil [] y = λ e. cc
append-ne-nil (x ∷ xs) y = λ e. cc

read-write_fields :
    (fs : List Bytes) → All (All IsByte) fs → read (write_fields fs ++ (brace ∷ [])) ≡ some fs
unfolding write_fields
read-write_fields [] h = unfold read in refl
read-write_fields (f ∷ fs) h = rw (append_assoc (write_field f) (write_fields fs) (brace ∷ [])) (
    read-write_field f (write_fields fs ++ (brace ∷ [])) fs h.0
      (append-ne-nil (write_fields fs) brace) (read-write_fields fs h.1))

-- A text with no brace is refused.
read_no_brace : (l : Bytes) → All (λ c. c ≢ brace) l → read l ≡ none
unfolding read
read_no_brace [] h = refl
read_no_brace (c ∷ []) h = ground arith
read_no_brace (c ∷ d ∷ cs) h = ground (arith, read_no_brace (d ∷ cs) h.1, read_no_brace cs h.1.1)

write_field-IsText : (f : Bytes) → All IsByte f → All IsText (write_field f)
unfolding write_field
write_field-IsText [] h = (inl refl, tt)
write_field-IsText (b ∷ bs) h = (inr (omega arith), (inr (omega arith), write_field-IsText bs h.1))

write_fields-IsText : (fs : List Bytes) → All (All IsByte) fs → All IsText (write_fields fs)
unfolding write_fields
write_fields-IsText [] h = tt
write_fields-IsText (f ∷ fs) h =
    All-append IsText (write_field f) (write_fields fs) (write_field-IsText f h.0)
      (write_fields-IsText fs h.1)

length-write_field : (f : Bytes) → length (write_field f) ≡ 2 * length f + 1
unfolding write_field
length-write_field [] = refl
length-write_field (b ∷ bs) = omega (arith, length-write_field bs)

take_body :
    (body : Bytes) (k : ℕ)
    → All IsText body
    → k < length (body ++ (brace ∷ []))
    → All (λ c. c ≢ brace) (take k (body ++ (brace ∷ [])))
take_body body zero h lt = tt
take_body [] (suc k) h lt = absurd (omega arith)
take_body (c ∷ cs) (suc k) h lt = (ground arith, take_body cs k h.1 (omega arith))

to_line : (body : Bytes) → All IsText body → All (λ b. (b ≢ newline) × (b ≢ carriage_return)) body
to_line [] h = tt
to_line (c ∷ cs) h = (ground arith, to_line cs h.1)

ascii_bytes : (s : Bytes) → IsAscii s → All IsByte s
ascii_bytes [] h = tt
ascii_bytes (b ∷ bs) h = (omega arith, ascii_bytes bs h.1)

fields-bytes : (r : Record) → IsStorable r → All (All IsByte) (fields r)
unfolding fields
fields-bytes r v = (
  ascii_bytes _ v.payment_id_ascii,
  (
    ascii_bytes _ v.tx_hash_ascii,
    (
      le_bytes-All 8 r.sat_id,
      (
        ascii_bytes _ v.amount_ascii,
        (
          le_bytes-All 8 r.asset_id,
          (
            ascii_bytes _ v.wallet_ascii,
            (
              ascii_bytes _ v.packet_c_hex_ascii,
              (
                le_bytes-All 8 r.block_number,
                (le_bytes-All 8 r.ts_ms, (ascii_bytes _ v.status_ascii, tt)),
              ),
            ),
          ),
        ),
      ),
    ),
  ),
)

of_fields-fields : (r : Record) → IsStorable r → of_fields (fields r) ≡ some r
unfolding of_fields fields
of_fields-fields r v =
    rw
      (
        le_value-le_bytes 8 r.sat_id (omega (arith, v.sat_id_u32)),
        le_value-le_bytes 8 r.asset_id (omega (arith, v.asset_id_u16)),
        le_value-le_bytes 8 r.block_number (omega (arith, v.block_number_u64)),
        le_value-le_bytes 8 r.ts_ms (omega (arith, v.ts_ms_i64)),
      )
      refl

eq_of_marshal :
    (r : Record) (l : Bytes) → marshal r ≡ some l → write_fields (fields r) ++ (brace ∷ []) ≡ l
unfolding marshal
eq_of_marshal r l e = eq_of_some e

pub sample_round_trip :
    (r : Record) (l : Bytes) → IsStorable r → marshal r ≡ some l → unmarshal l ≡ some r
unfolding unmarshal
sample_round_trip r l v e =
    rw (← eq_of_marshal r l e, read-write_fields (fields r) (fields-bytes r v))
      (of_fields-fields r v)

pub sample_one_line :
    (r : Record) (l : Bytes)
    → IsStorable r
    → marshal r ≡ some l
    → All (λ b. (b ≢ newline) × (b ≢ carriage_return)) l
sample_one_line r l v e = rw (← eq_of_marshal r l e) (
    All-append _ (write_fields (fields r)) (brace ∷ [])
      (to_line _ (write_fields-IsText (fields r) (fields-bytes r v))) ((ground arith), tt))

total : List Bytes → ℕ
total [] = 0
total (f ∷ fs) = 2 * length f + 1 + total fs

length-write_fields : (fs : List Bytes) → length (write_fields fs) ≡ total fs
unfolding write_fields total
length-write_fields [] = refl
length-write_fields (f ∷ fs) = omega (
  arith,
  length-append (write_field f) (write_fields fs),
  length-write_field f,
  length-write_fields fs,
)

total-fields : (r : Record) → total (fields r) ≡ 2 * (text_size r + length r.dispatch_status) + 74
unfolding fields total
total-fields r = omega arith

pub sample_line_size :
    (r : Record) (l : Bytes)
    → IsStorable r
    → marshal r ≡ some l
    → length l ≤ 6 * (text_size r + length r.dispatch_status) + 512
sample_line_size r l v e = omega (
  arith,
  ap (λ (x : Bytes). length x) (eq_of_marshal r l e),
  length-append (write_fields (fields r)) (brace ∷ []),
  length-write_fields (fields r),
  total-fields r,
)

pub sample_prefix_invalid :
    (r : Record) (l : Bytes) (k : ℕ)
    → IsStorable r
    → marshal r ≡ some l
    → k < length l
    → unmarshal (take k l) ≡ none
unfolding unmarshal
sample_prefix_invalid r l k v e lt =
    let body = write_fields (fields r) in
    let t = write_fields-IsText (fields r) (fields-bytes r v) in
    let x : l ≡ body ++ (brace ∷ []) = sym (eq_of_marshal r l e) in
    rw
      (
        x,
        read_no_brace (take k (body ++ (brace ∷ [])))
            (take_body body k t (subst (λ m. k < length m) x lt)),
      )
      refl

abbrev pub sample_json : Json
sample_json = record {
  marshal = marshal;
  unmarshal = unmarshal;
  one_line = sample_one_line;
  line_size = sample_line_size;
  round_trip = sample_round_trip;
  prefix_invalid = sample_prefix_invalid;
}

pub sample_json-Marshals : Marshals sample_json
unfolding marshal
sample_json-Marshals = record { total = λ r v. (_, refl) }
