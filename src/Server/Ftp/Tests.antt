-- ===== src/Server/Ftp/Tests.antt =====
-- frps.py: an answer to PASV that arrives in three pieces.
use frp_python.Prelude.{codes, whole, ℕ, ◌+◌, ◌≡◌, refl, Option, some, List, [], ◌∷◌}
use frp_python.Py.Text.{Text}
use frp_python.Server.Ftp.{cut_line, rewrite_line, handle_ftp_response, handle_pieces}
use frp_python.Server.Ftp.Cuts.{handle_pieces-eq-handle_ftp_response}

abbrev next_port : ℕ → ℕ → Option ℕ × ℕ
next_port internal n = (some (30000 + n), n + 1)

abbrev rewrite : Text → ℕ → Text × ℕ
rewrite line n = rewrite_line next_port (codes "10.0.0.1") line n

abbrev pieces : List Text
pieces = codes "227 Entering Passive Mode (127,0," ∷ (codes "0,1,4,1)\r") ∷ codes "\n200 " ∷ []

handle_pieces-eq-handle_ftp_response_example :
    handle_pieces rewrite [] pieces 0 ≡ handle_ftp_response rewrite [] (whole pieces) 0
handle_pieces-eq-handle_ftp_response_example =
    handle_pieces-eq-handle_ftp_response rewrite [] pieces 0 (unfold cut_line in refl)
