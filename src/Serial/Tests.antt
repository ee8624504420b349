-- ===== src/Serial/Tests.antt =====
-- Tests of shared_lib/src/serial.rs, with a UART that is busy for one look after each write, and loses a byte
-- that is written while it is busy.
use ferr_os.Serial.Sending.{after_sending}
use ferr_os.Base.{
  ℕ, ◌+◌, ◌-◌, ◌<◌, bit_and, ◌≡◌, refl, sym, inl, inr, Bool, true, false, not, ◌&&◌, ltb, ltb→lt,
  ◌==◌, ==_iff, Bool-cases, [], ◌∷◌, arith, if◌then◌else◌,
}
use ferr_os.Base.Io.{◌>>◌}
use ferr_os.Base.Io.{Gives}
use ferr_os.Serial.{Ports, init, write_str}
use ferr_os.Serial.Uart.{Registers, put, IsUart}
use ferr_os.Serial.Sending.{all_sent_for, ready, port_lem}

-- A byte is lost where the transmitter is busy.
abbrev loses : ℕ → Registers → Bool → Bool
loses offset r busy = (offset == 0) && ltb r.line 0x80 && busy

abbrev uart : Ports
uart = record {
  Device = Registers × Bool;
  outb = λ d port v. (if loses (port - 0x3f8) d.0 d.1 then d.0 else put (port - 0x3f8) v d.0, true);
  inb = λ d port. (if d.1 then 0 else 32, (d.0, false));
}

taken :
    (offset : ℕ) (r : Registers) (busy : Bool)
    → (offset ≡ 0 → r.line < 0x80 → not busy ≡ true)
    → loses offset r busy ≡ false
taken offset r false takes = ground arith
taken offset r true takes = elim (Bool-cases (offset == 0)) [
  | inr other ↦ rw other refl
  | inl zero_ ↦ elim (Bool-cases (ltb r.line 0x80)) [
    | inr open_ ↦ rw (zero_, open_) refl
    | inl closed ↦
        rw (zero_, closed) (sym (takes ((==_iff offset 0).0 zero_) (ltb→lt r.line 0x80 closed)))
  ]
]

abbrev wait_of : Bool → ℕ
wait_of true = 1
wait_of false = 0

uart-shorter :
    (busy : Bool) → bit_and (if busy then 0 else 32) 32 ≡ 0 → wait_of false < wait_of busy
uart-shorter true e = omega arith
uart-shorter false e = omega (arith, e)

wait_of-lt : (busy : Bool) → wait_of busy < 2
wait_of-lt true = omega arith
wait_of-lt false = omega arith

uart-IsUart : IsUart uart 0x3f8
uart-IsUart = record {
  view = λ d. d.0;
  patience = λ d. wait_of d.1;
  is_empty = λ d. not d.1;
  write_register = λ d offset v below takes.
      let back : 0x3f8 + offset - 0x3f8 ≡ offset = omega arith in
      rw (back, taken offset d.0 d.1 takes) refl;
  empty_look = λ d e. refl;
  read_status = λ d. refl;
  busy_looks = λ d e. uart-shorter d.1 e;
}

abbrev started : Registers
started = record {
  interrupts = 0;
  fifo = 0;
  line = 0x83;
  modem = 0;
  divisor_low = 12;
  divisor_high = 1;
  sent = [];
}

-- "a", and a backspace.
port_example :
    Gives
      (λ _ d'. d'.0 ≡ after_sending (ready []) (all_sent_for (97 ∷ 8 ∷ [])))
      ((init uart 0x3f8 >> write_str uart 0x3f8 2 (97 ∷ 8 ∷ [])) (started, true))
unfolding uart-IsUart
port_example =
    port_lem uart 0x3f8 uart-IsUart (omega arith) 2 (λ d. wait_of-lt d.1) (97 ∷ 8 ∷ [])
      (started, true)

erased : all_sent_for (97 ∷ 8 ∷ []) ≡ 97 ∷ 8 ∷ 32 ∷ 8 ∷ []
unfolding all_sent_for
erased = refl
