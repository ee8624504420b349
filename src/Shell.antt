-- ===== src/Shell.antt =====
-- src/shell.rs: the line editor and its commands. What the logger is given to show is kept as a
-- list, the last item first. `stop` is the executor's `STOP`.
pub mod Lines
mod Tests
use ferr_os.Base.{ℕ, String, Bool, true, false, List, [], ◌∷◌, ◌++◌, ◌==◌, ◌!=◌, if◌then◌else◌}

pub data Output : Type 0 where
  char : ℕ → Output
  text : String → Output

-- A character is its code point.
pub record Shell : Type 0 where
  pub shown : List Output
  pub input_buffer : List ℕ
  pub stop : Bool

abbrev pub newline : ℕ
newline = 10

abbrev pub shutdown_command : List ℕ
shutdown_command = 115 ∷ 104 ∷ 117 ∷ 116 ∷ 100 ∷ 111 ∷ 119 ∷ 110 ∷ []

abbrev pub help_command : List ℕ
help_command = 104 ∷ 101 ∷ 108 ∷ 112 ∷ []

unfoldable pub same_chars : List ℕ → List ℕ → Bool
same_chars [] [] = true
same_chars [] (y ∷ ys) = false
same_chars (x ∷ xs) [] = false
same_chars (x ∷ xs) (y ∷ ys) = let rest = same_chars xs ys in if x == y then rest else false

abbrev pub write_str : String → Shell → Shell
write_str s self = record self { shown = text s ∷ self.shown }

abbrev pub write_char : ℕ → Shell → Shell
write_char c self = record self { shown = char c ∷ self.shown }

-- The logger starts with an empty screen.
unfoldable pub new_shell : Bool → Shell
new_shell stop = write_str "# " (record { shown = []; input_buffer = []; stop = stop })

abbrev pub clear_line : Shell → Shell
clear_line self = write_str "# " (record self { input_buffer = [] })

unfoldable pub char_input : ℕ → Shell → Shell
char_input c before =
    let self = write_char c before in
    if c != newline
    then record self { input_buffer = self.input_buffer ++ c ∷ [] }
    else if same_chars self.input_buffer shutdown_command
    then record (write_str "\nshutting down...\n" self) { stop = true }
    else if same_chars self.input_buffer help_command
    then clear_line (
        write_str "- shutdown\n"
          (write_str "- help\n" (write_str "This is Rust OS! Commands list:\n" self)))
    else clear_line self
