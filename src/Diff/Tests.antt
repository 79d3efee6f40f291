-- ===== src/Diff/Tests.antt =====
-- A diff of a few lines.
use mini_router.Prelude.{◌≤◌, ◌≡◌, refl, String, List, [], ◌∷◌, arith}
use mini_router.Diff.{line_ops}
use mini_router.Diff.Replay.{line_ops-lines, old_lines, new_lines}
use mini_router.Diff.Optimal.{line_ops-most, kept}

abbrev old_text : List String
old_text = "lan:\n" ∷ "  ip: 10.0.0.1\n" ∷ "wan:\n" ∷ []

abbrev new_text : List String
new_text = "lan:\n" ∷ "  ip: 10.0.0.2\n" ∷ "wan:\n" ∷ "  proto: dhcp\n" ∷ []

line_ops-lines_example :
    (old_lines (line_ops old_text new_text) ≡ old_text)
    × (new_lines (line_ops old_text new_text) ≡ new_text)
line_ops-lines_example = line_ops-lines old_text new_text

line_ops-most_example : 2 ≤ kept (line_ops old_text new_text)
line_ops-most_example =
    line_ops-most old_text new_text ("lan:\n" ∷ "wan:\n" ∷ []) (omega arith) refl refl
