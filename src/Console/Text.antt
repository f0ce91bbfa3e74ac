-- ===== src/Console/Text.antt =====
-- kernel/src/console/console/textmode.rs: cells, colors, and the ring of rows behind a terminal. The
-- kernel's consoles have 80 columns and 25 rows (kernel/src/console/manager/mod.rs), and
-- `Terminal::new` asks for as many rows of scrollback. The ring is the cell at each index; an index
-- behind the slice that is accessed ends the kernel.
pub mod Page
use idos_nx.Base.{
  ℕ, ◌+◌, ◌-◌, ◌*◌, ◌/◌, ◌%◌, Bool, ◌&&◌, List, [], ◌∷◌, ltb, leb, ◌==◌, if◌then◌else◌, get_or,
}
use idos_nx.Base.Results.{Outcome, done, panic}

abbrev pub cols : ℕ
cols = 80

abbrev pub rows : ℕ
rows = 25

abbrev pub capacity : ℕ
capacity = rows + rows

-- `fg` and `bg` of a color code, and the changes of one of them.
abbrev pub fg : ℕ → ℕ
fg color = color % 16

abbrev pub bg : ℕ → ℕ
bg color = color / 16 % 16

abbrev pub set_fg : ℕ → ℕ → ℕ
set_fg color value = color / 16 % 16 * 16 + value % 16

abbrev pub set_bg : ℕ → ℕ → ℕ
set_bg color value = color % 16 + value % 16 * 16

abbrev pub black : ℕ
black = 0

abbrev pub light_gray : ℕ
light_gray = 7

abbrev pub color_code : ℕ → ℕ → ℕ
color_code fg bg = bg * 16 + fg

abbrev ansi_to_vga : List ℕ
ansi_to_vga = 0 ∷ 4 ∷ 2 ∷ 6 ∷ 1 ∷ 5 ∷ 3 ∷ 7 ∷ []

abbrev pub ansi_color_to_vga : ℕ → Bool → ℕ
ansi_color_to_vga ansi_index bright =
    let base = get_or ansi_to_vga (ansi_index % 8) 0 in if bright then base + 8 else base

pub record TextCell : Type 0 where
  pub glyph : ℕ
  pub color : ℕ

abbrev pub blank : TextCell
blank = record { glyph = 0x20; color = color_code light_gray black }

pub record TextBuffer : Type 0 where
  pub cells : ℕ → TextCell
  pub top_row : ℕ
  pub scrollback_count : ℕ

abbrev pub wrap : ℕ → ℕ
wrap idx = idx % capacity

abbrev pub rotate_to_zero : TextBuffer → TextBuffer
rotate_to_zero b = if b.top_row == 0 then b else record {
  cells = λ i. b.cells ((i + b.top_row * cols) % (capacity * cols));
  top_row = 0;
  scrollback_count = b.scrollback_count;
}

-- The buffer with its screen in one piece, which starts at the row `top_row`.
unfoldable pub get_text_buffer : TextBuffer → TextBuffer
get_text_buffer b = if ltb capacity (b.top_row + rows) then rotate_to_zero b else b

-- Cells from one index of a slice up to another, which is not among them.
abbrev pub fill : (ℕ → TextCell) → ℕ → ℕ → ℕ → TextCell → ℕ → TextCell
fill cells start from to cell i =
    if leb (start + from) i && ltb i (start + to) then cell else cells i

-- A write of cells to the slice of the screen.
unfoldable pub write_cells : TextBuffer → ℕ → ℕ → TextCell → Outcome TextBuffer
unfolding get_text_buffer
write_cells b from to cell =
    let screen = get_text_buffer b in
    if ltb from to && ltb (rows * cols) to
    then panic
    else done (record {
      cells = fill screen.cells (screen.top_row * cols) from to cell;
      top_row = screen.top_row;
      scrollback_count = screen.scrollback_count;
    })

-- The row of the ring that a virtual row is.
abbrev pub ring_index : TextBuffer → ℕ → ℕ
ring_index b virtual_row = wrap (b.top_row + capacity - b.scrollback_count + virtual_row)

-- A cell of a virtual row.
unfoldable pub row : TextBuffer → ℕ → ℕ → Outcome TextCell
row b virtual_row x =
    if ltb virtual_row (b.scrollback_count + rows)
    then done (b.cells (ring_index b virtual_row * cols + x))
    else panic

unfoldable pub scroll : TextBuffer → TextBuffer
scroll b =
    let top = wrap (b.top_row + 1) in
    let bottom = wrap (top + (rows - 1)) in
    record {
      cells = fill b.cells (bottom * cols) 0 cols blank;
      top_row = top;
      scrollback_count =
          if ltb b.scrollback_count (capacity - rows)
          then b.scrollback_count + 1
          else b.scrollback_count;
    }

-- `allocate`; the pages of the buffer are what they are.
abbrev pub allocate : (ℕ → TextCell) → TextBuffer
allocate cells = record { cells = cells; top_row = 0; scrollback_count = 0 }
