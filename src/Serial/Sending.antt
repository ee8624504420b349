-- ===== src/Serial/Sending.antt =====
-- shared_lib/src/serial.rs: the port, as what the UART sends.
use mathlib.Core.List.{append_assoc, append-nil}
use mathlib.Core.Path.{subst}
use ferr_os.Base.{
  ℕ, zero, suc, ◌+◌, ◌*◌, ◌^◌, ◌<◌, bit_and, ◌≡◌, refl, sym, ap, ◌∙◌, ◌⊎◌, inl, inr, ◌||◌, List, [],
  ◌∷◌, ◌++◌, arith, leb, ◌==◌, if◌then◌else◌, Bool-cases, u16, true,
}
use ferr_os.Base.Io.{◌>>◌}
use ferr_os.Base.Io.{Gives, gives, Gives-bind}
use ferr_os.Base.Bits.{digit, digit-op, digit-cases, bit_and-IsDigitwise, and_field}
use ferr_os.Serial.{Ports, outb, init, wait_output_empty, send_raw, send, write_str}
use ferr_os.Serial.Uart.{Registers, is_divisor_open, put, IsUart}

-- `contains` looks at bit 5 alone.
flag_5 : (status : ℕ) → bit_and (bit_and status 33) 32 ≡ bit_and status 32
unfolding digit
flag_5 status =
    and_field 1 5 (bit_and status 33)
    ∙ ap (λ x. x * 32)
        (digit-op bit_and-IsDigitwise 5 status 33
          ∙ elim (digit-cases status 5) [ inl e ↦ rw e refl | inr e ↦ rw e refl ])
    ∙ sym (and_field 1 5 status)

flag_5-cases : (status : ℕ) → (bit_and status 32 ≡ 0) ⊎ (bit_and status 32 ≡ 32)
unfolding digit
flag_5-cases status = elim (digit-cases status 5) [
  | inl e ↦ inl (and_field 1 5 status ∙ ap (λ x. x * 32) e)
  | inr e ↦ inr (and_field 1 5 status ∙ ap (λ x. x * 32) e)
]

-- The bytes that are sent for one that is written.
unfoldable pub sent_for : ℕ → List ℕ
sent_for byte = if (byte == 8) || (byte == 0x7f) then 8 ∷ 32 ∷ 8 ∷ [] else byte ∷ []

unfoldable pub all_sent_for : List ℕ → List ℕ
unfolding sent_for
all_sent_for [] = []
all_sent_for (byte ∷ bytes) = sent_for byte ++ all_sent_for bytes

-- These registers, after more bytes were sent.
abbrev pub after_sending : Registers → List ℕ → Registers
after_sending r bytes = record r { sent = r.sent ++ bytes }

after-after :
    (r : Registers) (xs ys : List ℕ)
    → after_sending (after_sending r xs) ys ≡ after_sending r (xs ++ ys)
after-after r xs ys = ap (λ l. record r { sent = l }) (append_assoc r.sent xs ys)

-- The registers after the initialisation.
abbrev pub ready : List ℕ → Registers
ready sent = record {
  interrupts = 0x01;
  fifo = 0xc7;
  line = 0x03;
  modem = 0x0b;
  divisor_low = 0x03;
  divisor_high = 0x00;
  sent = sent;
}

module _ (ports : Ports) (base : ℕ) (uart : IsUart ports base) (small : base + 8 < 2 ^ 16)
    (fuel : ℕ) (patient : (d : ports.Device) → uart.patience d < fuel) where
  -- The device has these registers.
  abbrev pub Has : Registers → ports.Device → Type 0
  Has r d = uart.view d ≡ r

  -- A write that the device takes.
  wrote :
      (offset v : ℕ) {r : Registers} (d : ports.Device)
      → offset < 8
      → (offset ≡ 0 → r.line < 0x80 → uart.is_empty d ≡ true)
      → Has r d
      → Has (put offset v r) (ports.outb d (u16 (base + offset)) v)
  wrote offset v d below takes at =
      let port : u16 (base + offset) ≡ base + offset = omega (arith, small, below) in
      ap (λ p. uart.view (ports.outb d p v)) port
      ∙ uart.write_register d offset v below
          (λ z closed. takes z (subst (λ x. x.line < 0x80) at closed))
      ∙ ap (put offset v) at

  -- A write to a register other than the data.
  wrote-other :
      (offset v : ℕ) {r : Registers} (d : ports.Device)
      → 0 < offset
      → offset < 8
      → Has r d
      → Has (put offset v r) (ports.outb d (u16 (base + offset)) v)
  wrote-other offset v d other below at =
      wrote offset v d below (λ z _. absurd (omega (arith, other, z))) at

  -- After the wait, the transmitter is empty.
  wait-Has :
      (rounds : ℕ) (r : Registers) (d : ports.Device)
      → uart.patience d < rounds
      → Has r d
      → Gives (λ _ d'. Has r d' × (uart.is_empty d' ≡ true)) (wait_output_empty ports base rounds d)
  unfolding wait_output_empty
  wait-Has zero r d short at = elim short [ ]
  wait-Has (suc rounds) r d short at =
      let port : u16 (base + 5) ≡ base + 5 = omega (arith, small) in
      rw (port, flag_5 (ports.inb d (base + 5)).0)
        (elim (flag_5-cases (ports.inb d (base + 5)).0) [
          | inl none_ ↦ rw none_ (
              wait-Has rounds r (ports.inb d (base + 5)).1
                (omega (arith, uart.busy_looks d none_, short)) (uart.read_status d ∙ at))
          | inr set_ ↦ rw set_ (gives (uart.read_status d ∙ at, uart.empty_look d set_))
        ])

  put-byte : (v : ℕ) (r : Registers) → r.line < 0x80 → put 0 v r ≡ after_sending r (v ∷ [])
  unfolding put is_divisor_open
  put-byte v r closed = ground (arith, closed)

  send_raw-Has :
      (v : ℕ) (r : Registers) (d : ports.Device)
      → r.line < 0x80
      → Has r d
      → Gives (λ _. Has (after_sending r (v ∷ []))) (send_raw ports base fuel v d)
  send_raw-Has v r d closed at =
      Gives-bind (wait_output_empty ports base fuel) (λ _. outb ports base 0 v) d
        (wait-Has fuel r d (patient d) at)
        λ _ d1 (at1, empty).
          subst (λ x. Gives (λ _. Has x) (outb ports base 0 v d1)) (put-byte v r closed)
            (gives (wrote 0 v d1 (omega arith) (λ _ _. empty) at1))

  send-Has :
      (byte : ℕ) (r : Registers) (d : ports.Device)
      → r.line < 0x80
      → Has r d
      → Gives (λ _. Has (after_sending r (sent_for byte))) (send ports base fuel byte d)
  unfolding send sent_for
  send-Has byte r d closed at = elim (Bool-cases ((byte == 8) || (byte == 0x7f))) [
    | inr plain ↦ rw plain (send_raw-Has byte r d closed at)
    | inl erase ↦ rw erase (
        Gives-bind (send_raw ports base fuel 8) _ d (send_raw-Has 8 r d closed at) λ _ d1 at1.
          Gives-bind (send_raw ports base fuel 32) _ d1 (send_raw-Has 32 _ d1 closed at1)
            λ _ d2 at2.
              subst (λ x. Gives (λ _. Has x) (send_raw ports base fuel 8 d2))
                (after-after (after_sending r (8 ∷ [])) (32 ∷ []) (8 ∷ [])
                  ∙ after-after r (8 ∷ []) (32 ∷ 8 ∷ []))
                (send_raw-Has 8 _ d2 closed at2))
  ]

  write_str-Has :
      (bytes : List ℕ) (r : Registers) (d : ports.Device)
      → r.line < 0x80
      → Has r d
      → Gives (λ _. Has (after_sending r (all_sent_for bytes))) (write_str ports base fuel bytes d)
  unfolding write_str all_sent_for
  write_str-Has [] r d closed at =
      gives (at ∙ ap (λ l. record r { sent = l }) (sym (append-nil r.sent)))
  write_str-Has (byte ∷ bytes) r d closed at =
      Gives-bind (send ports base fuel byte) _ d (send-Has byte r d closed at) λ _ d1 at1.
        subst (λ x. Gives (λ _. Has x) (write_str ports base fuel bytes d1))
          (after-after r (sent_for byte) (all_sent_for bytes)) (write_str-Has bytes _ d1 closed at1)

  configured :
      (r : Registers)
      → put 1 0x01 (
          put 4 0x0b
            (put 2 0xc7 (put 3 0x03 (put 1 0x00 (put 0 0x03 (put 3 0x80 (put 1 0x00 r)))))))
        ≡ ready r.sent
  unfolding put is_divisor_open
  configured r = elim (Bool-cases (leb 0x80 r.line)) [
    | inl shared ↦ rw shared refl
    | inr closed ↦ rw closed refl
  ]

  init-Has :
      (r : Registers) (d : ports.Device)
      → Has r d
      → Gives (λ _. Has (ready r.sent)) (init ports base d)
  unfolding init put
  init-Has r d at = gives (
      wrote-other 1 0x01 _ (omega arith) (omega arith) (
        wrote-other 4 0x0b _ (omega arith) (omega arith) (
          wrote-other 2 0xc7 _ (omega arith) (omega arith) (
            wrote-other 3 0x03 _ (omega arith) (omega arith) (
              wrote-other 1 0x00 _ (omega arith) (omega arith) (
                wrote 0 0x03 _ (omega arith) (λ _ open_. absurd (omega (arith, open_)))
                  (wrote-other 3 0x80 _ (omega arith) (omega arith)
                    (wrote-other 1 0x00 d (omega arith) (omega arith) at)))))))
      ∙ configured r)

  -- With a UART that keeps to its registers, takes a byte only where its transmitter is empty,
  -- and is not busy for longer than the fuel, initialising the port and writing bytes ends. The
  -- UART then has the divisor 3, eight data bits and its interrupts enabled, and its transmitter
  -- has taken the bytes in their order, each backspace or delete as a backspace, a space and a
  -- backspace.
  pub port_lem :
      (bytes : List ℕ) (d : ports.Device)
      → Gives
          (λ _ d'. Has (after_sending (ready (uart.view d).sent) (all_sent_for bytes)) d')
          ((init ports base >> write_str ports base fuel bytes) d)
  port_lem bytes d =
      Gives-bind (init ports base) (λ _. write_str ports base fuel bytes) d
        (init-Has (uart.view d) d refl) λ _ d1 at1. write_str-Has bytes _ d1 (omega arith) at1
