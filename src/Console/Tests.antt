-- ===== src/Console/Tests.antt =====
-- Runs on concrete output, and the theorems at them.
use idos_nx.Base.{ℕ, ◌+◌, ◌-◌, ◌<◌, min, ◌≡◌, refl, Option, none, some, List, [], ◌∷◌, arith}
use idos_nx.Base.Results.{Outcome, done, panic}
use idos_nx.Console.Text.{
  cols, rows, capacity, TextCell, TextBuffer, blank, write_cells, get_text_buffer, row, allocate,
}
use idos_nx.Console.Text.Page
use idos_nx.Console.Text.Page.{
  Call, scroll_call, look_call, write_call, OnScreen, run_page, first_page, run-row,
}
use idos_nx.Console.Term.{
  Terminal, new, newline, advance_cursor, handle_csi, parse_csi_params, params_from, handle_sgr,
  handle_sgrs, write_normal, write_csi, write_character,
}
use idos_nx.Console.Term.Bounds.{write_all, write_all_lem}

abbrev cells : ℕ → TextCell
cells i = blank

abbrev star : TextCell
star = record { glyph = b'*'; color = 7 }

abbrev calls : List Call
calls = write_call 0 3 star ∷ scroll_call ∷ look_call ∷ []

run-row_example :
    let page = run_page calls (first_page cells) in
    (b' : TextBuffer) × (Page.run calls (allocate cells) ≡ done b')
    × (b'.scrollback_count + rows ≡ min capacity page.count)
    × ((v x : ℕ)
        → v < min capacity page.count
        → x < cols
        → row b' v x ≡ done (page.cell_at (page.count - min capacity page.count + v) x))
run-row_example = run-row calls cells (omega arith, tt)

-- `A`, a new line, red, and a movement.
abbrev bytes : List ℕ
bytes = b'A' ∷ 10 ∷ 27 ∷ b'[' ∷ b'3' ∷ b'1' ∷ b'm' ∷ 27 ∷ b'[' ∷ b'9' ∷ b'C' ∷ []

write_all_lem_example :
    (t : Terminal) × (write_all bytes (new cells) ≡ done t)
    × (t.cursor_x < cols)
    × (t.cursor_y < rows)
    × (calls : List Call) × OnScreen calls
    × (Page.run calls (allocate cells) ≡ done t.text_buffer)
write_all_lem_example = write_all_lem bytes cells

abbrev state_of : Outcome Terminal → Option (ℕ × ℕ × ℕ)
state_of (done t) = some (t.cursor_x, t.cursor_y, t.current_color)
state_of panic = none

after_bytes : state_of (write_all bytes (new cells)) ≡ some (9, 24, 4)
unfolding write_all write_character write_normal write_csi handle_csi parse_csi_params params_from
    handle_sgrs handle_sgr newline advance_cursor write_cells get_text_buffer
after_bytes = refl

-- From row 23, down by 240 rows is up to row 7, and down by 256 is nowhere.
down_wraps :
    (state_of (write_all (27 ∷ b'[' ∷ b'2' ∷ b'4' ∷ b'0' ∷ b'B' ∷ []) (new cells)) ≡ some (0, 7, 7))
    × (state_of (write_all (27 ∷ b'[' ∷ b'2' ∷ b'5' ∷ b'6' ∷ b'B' ∷ []) (new cells))
        ≡ some (0, 23, 7))
unfolding write_all write_character write_normal write_csi handle_csi parse_csi_params params_from
    handle_sgrs handle_sgr newline advance_cursor write_cells get_text_buffer
down_wraps = (refl, refl)
