-- ===== src/External/Logger/RoundTrip.antt =====
-- A row of the tape can be read back.
use optimal_execution_platfo.Common.{
  ℕ, zero, suc, ◌+◌, ◌-◌, ◌*◌, ◌/◌, ◌%◌, ◌<◌, ◌≡◌, refl, ap, ◌∙◌, arith, Option, none, some, Bool,
  true, ◌&&◌, leb, ltb, ◌==◌, if◌then◌else◌, ◌>>=◌, [], ◌∷◌, ◌++◌, inl, inr, Bool-cases,
}
use optimal_execution_platfo.Common.Int.{ℤ, pos, negsuc}
use optimal_execution_platfo.Core.Order.{Side, buy, sell}
use optimal_execution_platfo.External.Event.{TelemetryEventType, fill, cancel, ack, TelemetryEvent}
use optimal_execution_platfo.External.Logger.{
  Bytes, codes, telemetry_event_type_name, side_name, digits_from, put_number, put_price,
  format_csv_row,
}

-- A reader of the rows, independent of the code: the digits from here on, and what comes after them.
abbrev pub is_digit : ℕ → Bool
is_digit c = leb b'0' c && leb c b'9'

pub scan : ℕ → Bytes → ℕ × Bytes
scan acc [] = (acc, [])
scan acc (c ∷ s) = if is_digit c then scan (acc * 10 + (c - b'0')) s else (acc, c ∷ s)

-- The rest after a prefix.
abbrev pub strip : Bytes → Bytes → Option Bytes
strip [] s = some s
strip (c ∷ cs) [] = none
strip (c ∷ cs) (d ∷ s) = if c == d then strip cs s else none

-- A number that ends at a comma.
unfoldable pub read_number : Bytes → Option (ℕ × Bytes)
unfolding scan
read_number s = do let (n, s') = scan 0 s; s'' ← strip (codes ",") s'; some (n, s'')

abbrev negative : Option (ℕ × Bytes) → Option (ℤ × Bytes)
negative none = none
negative (some (m, t)) = some (negsuc (m - 1), t)

-- A price is a number, or a minus sign and a number.
abbrev price_of : ℕ × Bytes → Option (ℤ × Bytes)
price_of (n, s) = elim (strip (codes "-") s) [
  | none ↦ (do s' ← strip (codes ",") s; some (pos n, s'))
  | some s' ↦ negative (read_number s')
]

unfoldable pub read_price : Bytes → Option (ℤ × Bytes)
read_price s = price_of (scan 0 s)

abbrev or_else {ℓ} : {A : Type ℓ} → Option A → Option A → Option A
or_else none b = b
or_else (some a) b = some a

abbrev tagged {ℓ} : {A : Type ℓ} → A → Option Bytes → Option (A × Bytes)
tagged a none = none
tagged a (some s) = some (a, s)

unfoldable pub read_type : Bytes → Option (TelemetryEventType × Bytes)
read_type s =
    or_else (tagged fill (strip (codes "FILL,") s))
      (or_else (tagged cancel (strip (codes "CANCEL,") s)) (tagged ack (strip (codes "ACK,") s)))

abbrev ended {ℓ} : {A : Type ℓ} → Option (A × Bytes) → Option A
ended (some (a, [])) = some a
ended (some (a, c ∷ s)) = none
ended none = none

unfoldable pub read_side : Bytes → Option Side
read_side s =
    or_else (ended (tagged buy (strip (codes "BUY") s)))
      (ended (tagged sell (strip (codes "SELL") s)))

pub parse_csv_row : Bytes → Option TelemetryEvent
parse_csv_row s = do
  (type, s) ← read_type s
  (sequence, s) ← read_number s
  (timestamp_ns, s) ← read_number s
  (order_id, s) ← read_number s
  (counter_id, s) ← read_number s
  (price, s) ← read_price s
  (qty, s) ← read_number s
  side ← read_side s
  some (record {
    type = type;
    side = side;
    sequence = sequence;
    timestamp_ns = timestamp_ns;
    order_id = order_id;
    counter_id = counter_id;
    price = price;
    qty = qty;
  })

-- Reading the digits of `n` yields `n`.
scan-digits_from : (f n : ℕ) (out : Bytes) → n < f → scan 0 (digits_from f n out) ≡ scan n out
unfolding scan digits_from
scan-digits_from zero n out h = absurd (omega arith)
scan-digits_from (suc f) n out h = elim (Bool-cases (ltb n 10)) [
  | inl e ↦
      let digit : is_digit (b'0' + n) ≡ true = ground arith in
      let value : 0 * 10 + (b'0' + n - b'0') ≡ n = omega arith in
      rw e (rw digit (ap (λ m. scan m out) value))
  | inr e ↦
      let digit : is_digit (b'0' + n % 10) ≡ true = ground arith in
      let value : n / 10 * 10 + (b'0' + n % 10 - b'0') ≡ n = omega arith in
      rw e (
        scan-digits_from f (n / 10) ((b'0' + n % 10) ∷ out) (ground arith)
        ∙ rw digit (ap (λ m. scan m out) value))
]

read_number-put_number : (n : ℕ) (s : Bytes) → read_number (put_number n (b',' ∷ s)) ≡ some (n, s)
unfolding read_number
read_number-put_number n s = rw (scan-digits_from (suc n) n (b',' ∷ s) (omega arith)) refl

read_price-put_price : (p : ℤ) (s : Bytes) → read_price (put_price p (b',' ∷ s)) ≡ some (p, s)
unfolding read_price scan strip
read_price-put_price (pos n) s = ap price_of (scan-digits_from (suc n) n (b',' ∷ s) (omega arith))
read_price-put_price (negsuc n) s =
    ap negative (read_number-put_number (suc n) s) ∙ ap (λ m. some (negsuc m, s)) (omega arith)

read_type-name :
    (t : TelemetryEventType) (s : Bytes)
    → read_type (telemetry_event_type_name t ++ b',' ∷ s) ≡ some (t, s)
unfolding read_type
read_type-name fill s = refl
read_type-name cancel s = refl
read_type-name ack s = refl

read_side-side_name : (s : Side) → read_side (side_name s) ≡ some s
unfolding read_side
read_side-side_name buy = refl
read_side-side_name sell = refl

-- A row that `FormatCsvRow` writes reads back as the event that it was written for, so no two events have
-- the same row.
pub parse_csv_row-format_csv_row : (e : TelemetryEvent) → parse_csv_row (format_csv_row e) ≡ some e
unfolding parse_csv_row format_csv_row
parse_csv_row-format_csv_row e =
    simp (read_type-name, read_number-put_number, read_price-put_price, read_side-side_name)
