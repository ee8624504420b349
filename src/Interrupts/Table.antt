-- ===== src/Interrupts/Table.antt =====
-- The table of handlers: what each vector leads to.
use ferr_os.Base.{
  ℕ, zero, suc, ◌<◌, ◌≡◌, refl, sym, ap, ◌∙◌, ◌≢◌, Option, none, some, arith, ◌==◌, if◌then◌else◌,
  length, get_elem?, get_or, replicate, get_elem?-set_ne, ok,
}
use ferr_os.Addr.Laws.{new-IsCanonical}
use ferr_os.Addr.{new}
use ferr_os.Idt.{
  Entry, missing, InterruptDescriptorTable, handler_addr, set_handler_fn, index, update,
  update_index,
}
use ferr_os.Idt.Handlers.{set_handler_addr_roundtrip}
use ferr_os.Idt.{set_stack_index, new_table}
use ferr_os.Interrupts.{double_fault_ist_index, Handlers, idt}

get_elem?-replicate : {A : Type 0} (n i : ℕ) (a : A) → i < n → get_elem? (replicate n a) i ≡ some a
get_elem?-replicate zero i a h = absurd (omega arith)
get_elem?-replicate (suc n) zero a h = refl
get_elem?-replicate (suc n) (suc i) a h = get_elem?-replicate n i a (omega arith)

-- The handler of a vector, where it has one.
abbrev pub handler_of : Handlers → ℕ → Option ℕ
handler_of handlers v =
    if v == 3
    then some handlers.breakpoint
    else if v == 8
    then some handlers.double_fault
    else if v == 13
    then some handlers.general_protection_fault
    else if v == 14
    then some handlers.page_fault
    else if v == 32
    then some handlers.timer
    else if v == 33
    then some handlers.keyboard
    else if v == 39
    then some handlers.spurious
    else none

unhandled :
    (handlers : Handlers) (v : ℕ)
    → handler_of handlers v ≡ none
    → (3 ≢ v) × (8 ≢ v) × (13 ≢ v) × (14 ≢ v) × (32 ≢ v) × (33 ≢ v) × (39 ≢ v)
unhandled handlers v e = (
  λ p. absurd (cc (rw (sym p) at e)),
  λ p. absurd (cc (rw (sym p) at e)),
  λ p. absurd (cc (rw (sym p) at e)),
  λ p. absurd (cc (rw (sym p) at e)),
  λ p. absurd (cc (rw (sym p) at e)),
  λ p. absurd (cc (rw (sym p) at e)),
  λ p. absurd (cc (rw (sym p) at e)),
)

unchanged :
    (k v : ℕ) (change : Entry → Entry) (table : InterruptDescriptorTable)
    → k ≢ v
    → get_elem? (update k change table) v ≡ get_elem? table v
unchanged k v change table apart =
    get_elem?-set_ne table k v (change (get_or table k missing)) apart

-- The address that the entry of a vector has.
abbrev pub address_of : InterruptDescriptorTable → ℕ → Option ℕ
address_of table v = elim (get_elem? table v) [
  | none ↦ none
  | some entry ↦ some (handler_addr entry)
]

handled : (cs h : ℕ) → handler_addr (set_handler_fn cs h missing) ≡ new h
unfolding set_handler_fn
handled cs h = (set_handler_addr_roundtrip cs (new h) missing (new-IsCanonical h).0).0

same_address : (e : Entry) (o : ℕ) → handler_addr (record e { options = o }) ≡ handler_addr e
unfolding handler_addr
same_address e o = refl

-- The initialiser gives a table of 256 entries. Each of the seven vectors with a handler has the
-- handler's address, and every other entry is missing.
pub idt_lem :
    (cs : ℕ) (handlers : Handlers)
    → (table : InterruptDescriptorTable) × (idt cs handlers ≡ ok table)
      × (length table ≡ 256)
      × ((address_of table 3 ≡ some (new handlers.breakpoint))
          × (address_of table 8 ≡ some (new handlers.double_fault))
          × (address_of table 13 ≡ some (new handlers.general_protection_fault))
          × (address_of table 14 ≡ some (new handlers.page_fault))
          × (address_of table 32 ≡ some (new handlers.timer))
          × (address_of table 33 ≡ some (new handlers.keyboard))
          × (address_of table 39 ≡ some (new handlers.spurious)))
      × ((v : ℕ) → v < 256 → handler_of handlers v ≡ none → get_elem? table v ≡ some missing)
unfolding idt update_index index
idt_lem cs handlers = (
  _,
  refl,
  refl,
  (
    ap some (handled cs handlers.breakpoint),
    ap some (
        same_address (set_handler_fn cs handlers.double_fault missing) _
        ∙ handled cs handlers.double_fault),
    ap some (handled cs handlers.general_protection_fault),
    ap some (handled cs handlers.page_fault),
    ap some (handled cs handlers.timer),
    ap some (handled cs handlers.keyboard),
    ap some (handled cs handlers.spurious),
  ),
  λ v below none_.
      let (a, b, c, d, e, f, g) = unhandled handlers v none_ in
      let fault = λ (entry : Entry).
        let set_ = set_handler_fn cs handlers.double_fault entry in
        record set_ { options = set_stack_index double_fault_ist_index set_.options } in
      let t1 = update 3 (set_handler_fn cs handlers.breakpoint) new_table in
      let t2 = update 8 fault t1 in
      let t3 = update 13 (set_handler_fn cs handlers.general_protection_fault) t2 in
      let t4 = update 32 (set_handler_fn cs handlers.timer) t3 in
      let t5 = update 33 (set_handler_fn cs handlers.keyboard) t4 in
      let t6 = update 39 (set_handler_fn cs handlers.spurious) t5 in
      unchanged 14 v (set_handler_fn cs handlers.page_fault) t6 d
      ∙ unchanged 39 v (set_handler_fn cs handlers.spurious) t5 g
      ∙ unchanged 33 v (set_handler_fn cs handlers.keyboard) t4 f
      ∙ unchanged 32 v (set_handler_fn cs handlers.timer) t3 e
      ∙ unchanged 13 v (set_handler_fn cs handlers.general_protection_fault) t2 c
      ∙ unchanged 8 v fault t1 b
      ∙ unchanged 3 v (set_handler_fn cs handlers.breakpoint) new_table a
      ∙ get_elem?-replicate 256 v missing below,
)
