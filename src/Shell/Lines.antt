-- ===== src/Shell/Lines.antt =====
-- Lines typed at the shell.
use ferr_os.Base.{
  ℕ, ◌≡◌, refl, sym, ◌∙◌, ◌≢◌, Bool, true, false, List, [], ◌∷◌, ◌++◌, arith, ◌==◌, if◌then◌else◌,
  ne→not_==, All,
}
use mathlib.Core.List.{append-nil, append_assoc}
use ferr_os.Base.{sym}
use ferr_os.Shell.{Shell, newline, shutdown_command, same_chars, char_input}

unfoldable pub type_chars : List ℕ → Shell → Shell
type_chars [] self = self
type_chars (c ∷ cs) self = type_chars cs (char_input c self)

abbrev pub IsNotNewline : ℕ → Type 0
IsNotNewline c = c ≢ newline

typed :
    (cs done : List ℕ) (self : Shell)
    → All IsNotNewline cs
    → self.input_buffer ≡ done
    → ((type_chars cs self).input_buffer ≡ done ++ cs) × ((type_chars cs self).stop ≡ self.stop)
unfolding type_chars char_input
typed [] done self _ e = (e ∙ sym (append-nil done), refl)
typed (c ∷ cs) done self (h, hs) e =
    let n : (c == newline) ≡ false = ne→not_== c newline h in
    let next = char_input c self in
    let stays : next.stop ≡ self.stop = ground (arith, n) in
    let longer : next.input_buffer ≡ done ++ c ∷ [] = ground (arith, n, e) in
    let (buffer, stop) = typed cs (done ++ c ∷ []) next hs longer in
    (buffer ∙ append_assoc done (c ∷ []) cs, stop ∙ stays)

type_chars-append :
    (xs ys : List ℕ) (self : Shell)
    → type_chars (xs ++ ys) self ≡ type_chars ys (type_chars xs self)
unfolding type_chars
type_chars-append [] ys self = refl
type_chars-append (x ∷ xs) ys self = type_chars-append xs ys (char_input x self)

-- The end of a line.
ended :
    (line : List ℕ) (stopped : Bool) (self : Shell)
    → self.input_buffer ≡ line
    → self.stop ≡ stopped
    → ((char_input newline self).stop
        ≡ (if same_chars line shutdown_command then true else stopped))
      × ((char_input newline self).input_buffer
          ≡ (if same_chars line shutdown_command then line else []))
unfolding char_input
ended line stopped self e stop = ground (arith, e, stop)

-- A line of text at an empty buffer, and its end: the shell stops exactly if the line is
-- "shutdown" (or it was stopped before), and otherwise the buffer is empty again.
pub type_line :
    (line : List ℕ) (self : Shell)
    → All IsNotNewline line
    → self.input_buffer ≡ []
    → ((type_chars (line ++ newline ∷ []) self).stop
        ≡ (if same_chars line shutdown_command then true else self.stop))
      × ((type_chars (line ++ newline ∷ []) self).input_buffer
          ≡ (if same_chars line shutdown_command then line else []))
unfolding type_chars char_input
type_line line self h e =
    let (buffer, stop) = typed line [] self h e in
    rw (type_chars-append line (newline ∷ []) self)
      (ended line self.stop (type_chars line self) buffer stop)
