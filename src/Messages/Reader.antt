-- ===== src/Messages/Reader.antt =====
-- messages/reader.rs: the cursor over the bytes of one packet.
pub mod Reads
pub mod Fine
pub mod Safe
pub mod Varint
pub mod Ensures
use squillion_mqtt.Prelude.{
  ◌≡◌, refl, ℕ, zero, suc, ◌+◌, ◌-◌, ◌*◌, ◌^◌, Bool, true, false, ◌&&◌, ◌||◌, List, [], ◌∷◌, ◌++◌,
  String, length, take, drop, leb, ltb, ◌==◌, if◌then◌else◌, bit_and, bit_or,
}
use squillion_mqtt.Result.{Result, ok, err}
use squillion_mqtt.Messages.Fault.{Fault, io, panic, out_of_fuel, invalid_data, Checked}
use squillion_mqtt.Messages.Length.{continues, join_group}
use squillion_mqtt.Messages.Utf8.{is_utf8}

pub record Reader : Type 0 where
  pub buf : List ℕ
  pub pos : ℕ

-- A method with `&mut self` that may return early with an error, which drops the cursor.
abbrev pub Parse : Type 0 → Type 0
Parse A = Reader → Checked (A × Reader)

abbrev pub pure : {A : Type 0} → A → Parse A
pure a r = ok (a, r)

abbrev pub fail : {A : Type 0} → Fault → Parse A
fail e r = err e

abbrev pub continue_with :
    {A B : Type 0} → Checked (A × Reader) → (A → Parse B) → Checked (B × Reader)
continue_with (ok (a, r)) f = f a r
continue_with (err e) f = err e

infixl 5 ◌>>=◌ ◌>>◌
abbrev pub ◌>>=◌ : {A B : Type 0} → Parse A → (A → Parse B) → Parse B
◌>>=◌ m f r = continue_with (m r) f

abbrev pub ◌>>◌ : {B : Type 0} → Parse (Unit {0}) → Parse B → Parse B
m >> k = m >>= λ _. k

-- `if cond { return Err(e) }`
abbrev pub reject_if : Bool → Fault → Parse (Unit {0})
reject_if true e r = err e
reject_if false e r = ok (tt, r)

unfoldable pub new : List ℕ → Reader
new buf = record { buf = buf; pos = 0 }

-- `saturating_sub` is the subtraction of natural numbers.
pub remaining : Reader → ℕ
remaining r = length r.buf - r.pos

pub remaining_lem : (r : Reader) → remaining r ≡ length r.buf - r.pos
unfolding remaining
remaining_lem r = refl

pub is_empty : Reader → Bool
unfolding remaining
is_empty r = remaining r == 0

pub need : ℕ → Parse (Unit {0})
unfolding remaining
need n r =
    if ltb (remaining r) n then err (io (invalid_data "unexpected end of packet")) else ok (tt, r)

-- `self.buf[self.pos + i]`, which panics out of bounds.
pub nth : List ℕ → ℕ → Checked ℕ
nth [] i = err panic
nth (b ∷ bs) zero = ok b
nth (b ∷ bs) (suc i) = nth bs i

with_reader : {A : Type 0} → Checked A → Reader → Checked (A × Reader)
with_reader (ok a) r = ok (a, r)
with_reader (err e) r = err e

pub peek : ℕ → Parse ℕ
unfolding nth with_reader
peek i r = with_reader (nth r.buf (r.pos + i)) r

-- `self.pos += n`
pub advance : ℕ → Parse (Unit {0})
advance n r = ok (tt, record r { pos = r.pos + n })

-- `&self.buf[self.pos..self.pos + n]`, which panics if it ends behind the buffer.
pub slice : ℕ → Parse (List ℕ)
slice n r = if leb (r.pos + n) (length r.buf) then ok (take n (drop r.pos r.buf), r) else err panic

pub read_u8 : Parse ℕ
unfolding need peek advance
read_u8 = do need 1; b ← peek 0; advance 1; pure b

pub read_u16 : Parse ℕ
unfolding need peek advance
read_u16 = do need 2; hi ← peek 0; lo ← peek 1; advance 2; pure (bit_or (hi * 2 ^ 8) lo)

pub read_bytes : ℕ → Parse (List ℕ)
unfolding need slice advance
read_bytes n = do need n; s ← slice n; advance n; pure s

-- `String::from_utf8(bytes)`, with the error that the caller maps to.
pub from_utf8 : List ℕ → String → Parse (List ℕ)
from_utf8 bytes context r = if is_utf8 bytes then ok (bytes, r) else err (io (invalid_data context))

pub read_mqtt_string : ℕ → Parse (List ℕ)
unfolding read_bytes from_utf8
read_mqtt_string len = do bytes ← read_bytes len; from_utf8 bytes "invalid UTF-8 in string field"

pub read_mqtt_string_prefixed : Parse (List ℕ)
unfolding read_u16 read_mqtt_string
read_mqtt_string_prefixed = do len ← read_u16; read_mqtt_string len

-- The loop of `read_varint`. It returns an error in its fourth round at the latest.
pub varint_loop : ℕ → ℕ → ℕ → Parse ℕ
unfolding need peek advance
varint_loop zero len lensize = fail out_of_fuel
varint_loop (suc fuel) len lensize = do
  b ← peek 0
  let round = do
    advance 1
    need 1
    c ← peek 0
    reject_if (ltb 4 (lensize + 1)) (io (invalid_data "variable-length integer too long"))
    varint_loop fuel (join_group len c lensize) (lensize + 1)
  if continues b then round else pure len

pub position : Parse ℕ
position r = ok (r.pos, r)

pub read_varint : Parse (ℕ × ℕ)
unfolding need peek advance varint_loop position
read_varint = do
  start ← position
  need 1
  b ← peek 0
  len ← varint_loop 4 (bit_and b 0x7f) 1
  advance 1
  end ← position
  pure (len, end - start)

pub skip : ℕ → Parse (Unit {0})
unfolding need advance
skip n = do need n; advance n

pub expect_end : String → Parse (Unit {0})
unfolding remaining
expect_end context r = if remaining r == 0 then ok (tt, r) else err (io (invalid_data context))

-- What `from_bytes` of a message makes of the packet: its cursor is dropped at the end.
pub run : {A : Type 0} → Parse A → List ℕ → Checked A
unfolding new
run p buf = elim (p (new buf)) [ ok (a, r) ↦ ok a | err e ↦ err e ]

-- `a.checked_sub(b).ok_or(e)?`
pub checked_sub : ℕ → ℕ → Fault → Parse ℕ
checked_sub a b e r = if ltb a b then err e else ok (a - b, r)
