-- ===== src/Console/Term.antt =====
-- kernel/src/console/console/term.rs: the terminal, with the text mode of its output: the cursor, the
-- colors, and the escape sequences. A `u8` keeps its wrap-around. The palette, the graphics buffer and
-- the flags of termios are left out, which no escape sequence reads or changes.
pub mod Bounds
use idos_nx.Base.{
  ℕ, ◌+◌, ◌-◌, ◌*◌, ◌%◌, min, max, Bool, true, false, ◌&&◌, ◌||◌, List, [], ◌∷◌, ◌++◌, ltb, leb,
  ◌==◌, if◌then◌else◌, get_or, wrap32,
}
use idos_nx.Base.Results.{Outcome, done, panic, ◌>>=◌}
use idos_nx.Console.Text.{
  cols, rows, fg, bg, set_fg, set_bg, black, light_gray, color_code, ansi_color_to_vga, TextCell,
  blank, TextBuffer, get_text_buffer, write_cells, scroll, allocate,
}

pub data AnsiParseState : Type 0 where
  normal escape csi : AnsiParseState

pub record Terminal : Type 0 where
  pub cursor_x : ℕ
  pub cursor_y : ℕ
  pub current_color : ℕ
  pub parse_state : AnsiParseState
  pub ansi_params : List ℕ
  pub text_buffer : TextBuffer

-- `Terminal::new`, with what the pages of its buffer hold.
abbrev pub new : (ℕ → TextCell) → Terminal
new cells = record {
  cursor_x = 0;
  cursor_y = rows - 2;
  current_color = color_code light_gray black;
  parse_state = normal;
  ansi_params = [];
  text_buffer = allocate cells;
}

abbrev add8 : ℕ → ℕ → ℕ
add8 x n = (x + n) % 256

abbrev pub backspace : Terminal → Terminal
backspace t =
    if ltb 0 t.cursor_x
    then record t { cursor_x = t.cursor_x - 1 }
    else if ltb 0 t.cursor_y
    then record t { cursor_y = t.cursor_y - 1; cursor_x = cols - 1 }
    else t

abbrev pub carriage_return : Terminal → Terminal
carriage_return t = record t { cursor_x = 0 }

unfoldable pub newline : Terminal → Terminal
newline t =
    let y = add8 t.cursor_y 1 in
    if leb rows y
    then record t { text_buffer = scroll t.text_buffer; cursor_y = rows - 1 }
    else record t { cursor_y = y }

unfoldable pub advance_cursor : Terminal → Terminal
advance_cursor t =
    let x = add8 t.cursor_x 1 in
    if leb cols x then newline (record t { cursor_x = 0 }) else record t { cursor_x = x }

abbrev pub get_cursor_offset : Terminal → ℕ
get_cursor_offset t = t.cursor_y * cols + t.cursor_x

-- A write to cells of the screen.
abbrev pub on_buffer : Terminal → ℕ → ℕ → TextCell → Outcome Terminal
on_buffer t from to cell =
    write_cells t.text_buffer from to cell >>= (λ b. done (record t { text_buffer = b }))

abbrev pub put_raw_character : Terminal → ℕ → Outcome Terminal
put_raw_character t ch =
    let offset = get_cursor_offset t in
    on_buffer t offset (offset + 1) (record { glyph = ch; color = t.current_color })
    >>= (λ t'. done (advance_cursor t'))

abbrev pub clear_buffer : Terminal → Outcome Terminal
clear_buffer t = on_buffer t 0 (rows * cols) blank

-- The loop of `parse_csi_params`: the parameter so far, and if it has a digit.
unfoldable pub params_from : List ℕ → ℕ → Bool → List ℕ
params_from [] current has_digit = (if has_digit then current else 0) ∷ []
params_from (byte ∷ rest) current has_digit =
    let next = params_from rest 0 false in
    let more = params_from rest (wrap32 (current * 10 + (byte - 48))) true in
    let other = params_from rest current has_digit in
    if byte == b';'
    then (if has_digit then current else 0) ∷ next
    else if leb 48 byte && leb byte 57
    then more
    else other

unfoldable pub parse_csi_params : Terminal → List ℕ
unfolding params_from
parse_csi_params t = params_from t.ansi_params 0 false

unfoldable pub handle_sgr : Terminal → ℕ → Terminal
handle_sgr t code =
    let color = t.current_color in
    if code == 0
    then record t { current_color = color_code light_gray black }
    else if code == 1
    then if ltb (fg color) 8 then record t { current_color = set_fg color (fg color + 8) } else t
    else if code == 22
    then if leb 8 (fg color) then record t { current_color = set_fg color (fg color - 8) } else t
    else if code == 7
    then record t { current_color = set_bg (set_fg color (bg color)) (fg color) }
    else if leb 30 code && leb code 37
    then record t { current_color = set_fg color (ansi_color_to_vga ((code - 30) % 256) false) }
    else if code == 39
    then record t { current_color = set_fg color light_gray }
    else if leb 40 code && leb code 47
    then record t { current_color = set_bg color (ansi_color_to_vga ((code - 40) % 256) false) }
    else if code == 49
    then record t { current_color = set_bg color black }
    else if leb 90 code && leb code 97
    then record t { current_color = set_fg color (ansi_color_to_vga ((code - 90) % 256) true) }
    else if leb 100 code && leb code 107
    then record t { current_color = set_bg color (ansi_color_to_vga ((code - 100) % 256) true) }
    else t

unfoldable pub handle_sgrs : Terminal → List ℕ → Terminal
handle_sgrs t [] = t
handle_sgrs t (code ∷ rest) = handle_sgrs (handle_sgr t code) rest

-- No parameter, or a single 0, is a reset.
abbrev sgr_params : List ℕ → List ℕ
sgr_params [] = 0 ∷ []
sgr_params (code ∷ rest) = code ∷ rest

-- The first parameter of a movement, as a `u8`.
abbrev distance : List ℕ → ℕ
distance params = max (get_or params 0 1) 1 % 256

-- A parameter that counts from 1, as a `u8` that counts from 0.
abbrev place : List ℕ → ℕ → ℕ
place params index = (max (get_or params index 1) 1 - 1) % 256

unfoldable pub erase_in_line : Terminal → ℕ → Outcome Terminal
erase_in_line t mode =
    let row_start = t.cursor_y * cols in
    let empty : TextCell = record { glyph = 0x20; color = t.current_color } in
    if mode == 0
    then on_buffer t (row_start + t.cursor_x) (row_start + cols) empty
    else if mode == 1
    then on_buffer t row_start (row_start + t.cursor_x + 1) empty
    else if mode == 2
    then on_buffer t row_start (row_start + cols) empty
    else done (record t { text_buffer = get_text_buffer t.text_buffer })

unfoldable pub handle_csi : Terminal → ℕ → Outcome Terminal
handle_csi t0 final_char =
    let params = parse_csi_params t0 in
    let t : Terminal = record t0 { ansi_params = [] } in
    if final_char == b'A'
    then done (record t { cursor_y = t.cursor_y - distance params })
    else if final_char == b'B'
    then done (record t { cursor_y = min (add8 t.cursor_y (distance params)) (rows - 1) })
    else if final_char == b'C'
    then done (record t { cursor_x = min (add8 t.cursor_x (distance params)) (cols - 1) })
    else if final_char == b'D'
    then done (record t { cursor_x = t.cursor_x - distance params })
    else if final_char == b'H' || final_char == b'f'
    then done (record t {
      cursor_y = min (place params 0) (rows - 1);
      cursor_x = min (place params 1) (cols - 1);
    })
    else if final_char == b'G'
    then done (record t { cursor_x = min (place params 0) (cols - 1) })
    else if final_char == b'J'
    then if get_or params 0 0 == 2
      then clear_buffer t >>= (λ t'. done (record t' { cursor_x = 0; cursor_y = 0 }))
      else done t
    else if final_char == b'K'
    then erase_in_line t (get_or params 0 0)
    else if final_char == b'm'
    then done (handle_sgrs t (sgr_params params))
    else done t

unfoldable pub write_normal : Terminal → ℕ → Outcome Terminal
unfolding advance_cursor
write_normal t ch =
    if ch == 0x08
    then done (backspace t)
    else if ch == 0x0a
    then done (newline (carriage_return t))
    else if ch == 0x0d
    then done (carriage_return t)
    else if ch == 0x1b
    then done (record t { parse_state = escape })
    else if ltb ch 0x20
    then done t
    else put_raw_character t ch

unfoldable pub write_csi : Terminal → ℕ → Outcome Terminal
write_csi t ch =
    if leb 0x20 ch && leb ch 0x3f
    then done (record t { ansi_params = t.ansi_params ++ (ch ∷ []) })
    else if leb 0x40 ch && leb ch 0x7e
    then handle_csi t ch >>= (λ t'. done (record t' { parse_state = normal }))
    else done t

unfoldable pub write_character : Terminal → ℕ → Outcome Terminal
unfolding write_normal write_csi
write_character t ch = elim t.parse_state [
  | normal ↦ write_normal t ch
  | escape ↦
      if ch == b'['
      then done (record t { ansi_params = []; parse_state = csi })
      else done (record t { parse_state = normal })
  | csi ↦ write_csi t ch
]
