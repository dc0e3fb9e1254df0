-- ===== src/Messages/Codec/Frames.antt =====
-- The frames that `decode` cuts from the buffer, and the arrival of a frame in pieces.
use squillion_mqtt.Prelude.{
  ℕ, ◌+◌, ◌/◌, ◌^◌, ◌≤◌, false, Option, none, some, List, [], ◌∷◌, ◌++◌, length, take, drop, ltb,
  ◌≡◌, refl, ap, sym, arith, length-append, Bool-cases, inl, inr, take-drop, take-append_short,
  drop-append_short, length-take,
}
use squillion_mqtt.Result.{Result, ok, err}
use squillion_mqtt.Messages.Fault.{IoError, io}
use squillion_mqtt.Messages.Length.{max_length, read_size_check}
use squillion_mqtt.Messages.Length.Decode.{read_size_check_bounds, read_size_check-append_some}
use squillion_mqtt.Messages.Types.{MqttMessageType, try_from}
use squillion_mqtt.Messages.Codec.{
  MqttMessage, MqttCodec, decode_type, decode_frame, decode_sized, decode, Decoded,
}

-- What `decode` may do with a buffer: leave it and wait, leave it and report an error, or cut a frame off
-- its front, of at most five bytes of header and the length that the codec allows.
pub data Framed (self : MqttCodec) (buf : List ℕ) : Decoded → Type 0 where
  waits : Framed self buf (ok none, buf)
  refused : {e : IoError} → Framed self buf (err (io e), buf)
  framed :
      (type : Option MqttMessageType) (frame : List ℕ) {rest : List ℕ}
      → buf ≡ frame ++ rest
      → 2 ≤ length frame
      → length frame ≤ 5 + self.max_packet_size
      → length frame ≤ 5 + max_length
      → Framed self buf (decode_type type frame, rest)

Framed-decode_frame :
    (self : MqttCodec) (msgtype : ℕ) (buf : List ℕ) (len lensize : ℕ)
    → 1 ≤ lensize
    → lensize ≤ 4
    → Framed self buf (decode_frame self msgtype buf len lensize)
unfolding decode_frame
Framed-decode_frame self msgtype buf len lensize lo hi =
    elim (Bool-cases (ltb self.max_packet_size len)) [
      | inl large ↦ rw large Framed.refused
      | inr allowed ↦ elim (Bool-cases (ltb max_length len)) [
        | inl large ↦ rw (allowed, large) Framed.refused
        | inr legal ↦ elim (Bool-cases (ltb (length buf) (1 + lensize + len))) [
          | inl short ↦ rw (allowed, legal, short) Framed.waits
          | inr whole ↦
              let size : length (take (1 + lensize + len) buf) ≡ 1 + lensize + len =
                length-take (1 + lensize + len) buf (ground arith) in
              rw (allowed, legal, whole)
                (Framed.framed (try_from msgtype) _ (sym (take-drop (1 + lensize + len) buf))
                  (omega arith) (ground (arith, size)) (ground (arith, size)))
        ]
      ]
    ]

Framed-decode_sized :
    (self : MqttCodec) (msgtype : ℕ) (buf : List ℕ) (size : Result (Unit {0}) (Option (ℕ × ℕ)))
    → ((n k : ℕ) → size ≡ ok (some (n, k)) → (1 ≤ k) × (k ≤ 4))
    → Framed self buf (decode_sized self msgtype buf size)
unfolding decode_sized
Framed-decode_sized self msgtype buf (ok none) h = Framed.waits
Framed-decode_sized self msgtype buf (err e) h = Framed.refused
Framed-decode_sized self msgtype buf (ok (some (len, lensize))) h =
    let (lo, hi) = h len lensize refl in Framed-decode_frame self msgtype buf len lensize lo hi

-- `decode` leaves the buffer as it is and waits or reports an error, or it takes one frame off its front:
-- at least two bytes, and at most five more than the limit of the codec and than `MAX_LENGTH`.
pub decode-Framed : (self : MqttCodec) (buf : List ℕ) → Framed self buf (decode self buf)
unfolding decode
decode-Framed self [] = Framed.waits
decode-Framed self (b ∷ rest) =
    Framed-decode_sized self (b / 2 ^ 4) (b ∷ rest) (read_size_check rest)
      (λ n k e. let (_, lo, hi, _) = read_size_check_bounds rest n k e in (lo, hi))

decode_frame-append :
    (self : MqttCodec) (msgtype : ℕ) (buf more : List ℕ) (len lensize : ℕ) (m : MqttMessage)
    (rest : List ℕ)
    → decode_frame self msgtype buf len lensize ≡ (ok (some m), rest)
    → decode_frame self msgtype (buf ++ more) len lensize ≡ (ok (some m), rest ++ more)
unfolding decode_frame
decode_frame-append self msgtype buf more len lensize m rest e =
    elim (Bool-cases (ltb self.max_packet_size len)) [
      | inl large ↦ let e' = rw large at e in cc
      | inr allowed ↦ elim (Bool-cases (ltb max_length len)) [
        | inl large ↦ let e' = rw (allowed, large) at e in cc
        | inr legal ↦ elim (Bool-cases (ltb (length buf) (1 + lensize + len))) [
          | inl short ↦ let e' = rw (allowed, legal, short) at e in cc
          | inr whole ↦
              let e' = rw (allowed, legal, whole) at e in
              let still : ltb (length (buf ++ more)) (1 + lensize + len) ≡ false =
                ground (arith, length-append buf more) in
              rw
                (
                  allowed,
                  legal,
                  still,
                  take-append_short (1 + lensize + len) buf more (ground arith),
                  drop-append_short (1 + lensize + len) buf more (ground arith),
                )
                (let front : decode_type (try_from msgtype) (take (1 + lensize + len) buf)
                      ≡ ok (some m) =
                    ap (λ p. p.0) e' in
                  let back : drop (1 + lensize + len) buf ≡ rest = ap (λ p. p.1) e' in
                  rw (front, back))
        ]
      ]
    ]

decode_sized-append :
    (self : MqttCodec) (msgtype : ℕ) (buf more : List ℕ) (x y : Result (Unit {0}) (Option (ℕ × ℕ)))
    (m : MqttMessage) (rest : List ℕ)
    → ((r : ℕ × ℕ) → x ≡ ok (some r) → y ≡ ok (some r))
    → decode_sized self msgtype buf x ≡ (ok (some m), rest)
    → decode_sized self msgtype (buf ++ more) y ≡ (ok (some m), rest ++ more)
unfolding decode_sized
decode_sized-append self msgtype buf more (ok none) y m rest h e = cc
decode_sized-append self msgtype buf more (err x) y m rest h e = cc
decode_sized-append self msgtype buf more (ok (some (len, lensize))) y m rest h e =
    rw (h (len, lensize) refl) (decode_frame-append self msgtype buf more len lensize m rest e)

-- Bytes that arrive behind a whole packet change neither the message nor anything but the end of the
-- buffer that is left.
pub decode-append :
    (self : MqttCodec) (buf more rest : List ℕ) (m : MqttMessage)
    → decode self buf ≡ (ok (some m), rest)
    → decode self (buf ++ more) ≡ (ok (some m), rest ++ more)
unfolding decode
decode-append self [] more rest m e = cc
decode-append self (b ∷ buf) more rest m e =
    decode_sized-append self (b / 2 ^ 4) (b ∷ buf) more (read_size_check buf)
      (read_size_check (buf ++ more)) m rest (read_size_check-append_some buf more) e
