-- ===== src/LogBuffer/Tests.antt =====
-- webadmin/api/log_buffer.py at concrete inputs.
use frp_python.Prelude.{codes, ◌≡◌, refl, List, [], ◌∷◌, map}
use frp_python.LogBuffer.{new_buffer, display, get_history, append_all, last, history-append_all}
use frp_python.Py.Text.{Text}

abbrev lines : List Text
lines = codes "one" ∷ codes "two" ∷ codes "three" ∷ []

history-append_all_example :
    get_history (append_all lines (new_buffer 2)) ≡ last 2 (map display lines)
history-append_all_example = history-append_all lines [] (new_buffer 2) refl
