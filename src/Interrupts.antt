-- ===== src/Interrupts.antt =====
-- shared_lib/src/interrupts.rs: running code with interrupts disabled; src/interrupts.rs: the
-- vectors and the table of handlers. The flags register is the state of the CPU that matters
-- here; the handlers' addresses are arguments.
pub mod Masking
pub mod Table
mod Tests
use ferr_os.Base.{ℕ, true, false, ◌==◌, if◌then◌else◌, Outcome, ok, ◌>>=◌}
use ferr_os.Bits.{get_bits, set_bit}
use ferr_os.Idt.{
  InterruptDescriptorTable, new_table, set_handler_fn, set_stack_index, update, update_index,
}

-- `cli` and `sti` on the flags register.
abbrev pub cli : ℕ → ℕ
cli rflags = set_bit rflags 9 false

abbrev pub sti : ℕ → ℕ
sti rflags = set_bit rflags 9 true

-- `f` takes the flags register that it runs with, and gives its result and the register after.
unfoldable pub without_interrupts {ℓ} : {R : Type ℓ} → (ℕ → R × ℕ) → ℕ → R × ℕ
without_interrupts f rflags =
    let saved_intpt_flag = get_bits rflags 9 10 == 1 in
    let (ret, after) = f (if saved_intpt_flag then cli rflags else rflags) in
    (ret, if saved_intpt_flag then sti after else after)

-- `InterruptIndex`
abbrev pub timer_index : ℕ
timer_index = 32

abbrev pub keyboard_index : ℕ
keyboard_index = 33

abbrev pub spurious_index : ℕ
spurious_index = 39

abbrev pub double_fault_ist_index : ℕ
double_fault_ist_index = 0

pub record Handlers : Type 0 where
  pub breakpoint : ℕ
  pub double_fault : ℕ
  pub general_protection_fault : ℕ
  pub timer : ℕ
  pub keyboard : ℕ
  pub spurious : ℕ
  pub page_fault : ℕ

-- The initialiser of `IDT`.
unfoldable pub idt : ℕ → Handlers → Outcome InterruptDescriptorTable
idt cs handlers = do
  let t1 = update 3 (set_handler_fn cs handlers.breakpoint) new_table
  let t2 =
      update 8
        (λ entry.
          let set_ = set_handler_fn cs handlers.double_fault entry in
          record set_ { options = set_stack_index double_fault_ist_index set_.options })
        t1
  let t3 = update 13 (set_handler_fn cs handlers.general_protection_fault) t2
  t4 ← update_index timer_index (set_handler_fn cs handlers.timer) t3
  t5 ← update_index keyboard_index (set_handler_fn cs handlers.keyboard) t4
  t6 ← update_index spurious_index (set_handler_fn cs handlers.spurious) t5
  ok (update 14 (set_handler_fn cs handlers.page_fault) t6)
