-- ===== src/Shell/Tests.antt =====
-- Lines typed at the shell.
use ferr_os.Base.{◌≡◌, refl, true, false, [], ◌∷◌, ◌++◌, arith, if◌then◌else◌, length}
use ferr_os.Shell.{new_shell, shutdown_command, help_command, newline, same_chars, char_input}
use ferr_os.Shell.Lines.{type_chars, type_line}

help_shown : length (type_chars (help_command ++ newline ∷ []) (new_shell false)).shown ≡ 10
unfolding type_chars char_input new_shell same_chars
help_shown = refl

type_line_test :
    ((type_chars (shutdown_command ++ newline ∷ []) (new_shell false)).stop
      ≡ (if same_chars shutdown_command shutdown_command then true else (new_shell false).stop))
    × ((type_chars (shutdown_command ++ newline ∷ []) (new_shell false)).input_buffer
        ≡ (if same_chars shutdown_command shutdown_command then shutdown_command else []))
unfolding new_shell
type_line_test = type_line shutdown_command (new_shell false) (omega arith) refl
