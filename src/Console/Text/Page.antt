-- ===== src/Console/Text/Page.antt =====
-- The ring of rows shows the end of a page without an end: each scroll appends a blank row to the page,
-- and a write to the screen changes its last rows.
use idos_nx.Base.{
  ℕ, ◌+◌, ◌-◌, ◌*◌, ◌≤◌, ◌<◌, min, ◌≡◌, refl, sym, ap, ◌∙◌, ◌⊎◌, inl, inr, true, false, ◌&&◌, List,
  [], ◌∷◌, arith, ltb, leb, ◌==◌, if◌then◌else◌, Bool-cases,
}
use idos_nx.Base.Results.{Outcome, done, ◌>>=◌}
use idos_nx.Console.Text.{
  cols, rows, capacity, TextCell, TextBuffer, blank, fill, wrap, get_text_buffer, rotate_to_zero,
  write_cells, ring_index, row, scroll, allocate,
}

-- The number of rows, and the cell at a row and a column.
pub record Page : Type 0 where
  pub count : ℕ
  pub cell_at : ℕ → ℕ → TextCell

abbrev pub append_blank : Page → Page
append_blank p = record {
  count = p.count + 1;
  cell_at = λ y x. if y == p.count then blank else p.cell_at y x;
}

-- Cells of the last rows, counted from the first of these as in the slice of the screen.
abbrev pub write_last : Page → ℕ → ℕ → TextCell → Page
write_last p from to cell = record {
  count = p.count;
  cell_at = λ y x.
      let offset = (y - (p.count - rows)) * cols + x in
      if leb (p.count - rows) y && leb from offset && ltb offset to then cell else p.cell_at y x;
}

-- The rows of the buffer are the last rows of the page, as many as it has place for.
pub record Shows (b : TextBuffer) (p : Page) : Type 0 where
  pub top : b.top_row < capacity
  pub enough : rows ≤ p.count
  pub kept : b.scrollback_count ≡ min (capacity - rows) (p.count - rows)
  pub cells :
      (v x : ℕ)
      → v < b.scrollback_count + rows
      → x < cols
      → b.cells (ring_index b v * cols + x) ≡ p.cell_at (p.count - rows - b.scrollback_count + v) x

fill-row :
    (cells : ℕ → TextCell) (r bottom x : ℕ) (cell : TextCell)
    → x < cols
    → fill cells (bottom * cols) 0 cols cell (r * cols + x)
      ≡ (if r == bottom then cell else cells (r * cols + x))
fill-row cells r bottom x cell h = ground arith

module _ (b : TextBuffer) (p : Page) (s : Shows b p) where
  -- A cell of a virtual row, from the equations of its row in the ring and in the page.
  cell_of :
      (v x ring y : ℕ)
      → v < b.scrollback_count + rows
      → x < cols
      → ring ≡ ring_index b v
      → y ≡ p.count - rows - b.scrollback_count + v
      → b.cells (ring * cols + x) ≡ p.cell_at y x
  cell_of v x ring y h hx e e' =
      ap (λ (r : ℕ). b.cells (r * cols + x)) e
      ∙ s.cells v x h hx
      ∙ ap (λ (n : ℕ). p.cell_at n x) (sym e')

  scroll-cells :
      (kept v x : ℕ)
      → kept ≡ min (capacity - rows) (p.count + 1 - rows)
      → v < kept + rows
      → x < cols
      → let top = wrap (b.top_row + 1) in
        fill b.cells
          (wrap (top + (rows - 1)) * cols)
          0
          cols
          blank
          (wrap (top + capacity - kept + v) * cols + x)
        ≡ (append_blank p).cell_at (p.count + 1 - rows - kept + v) x
  scroll-cells kept v x e hv hx =
      let top = wrap (b.top_row + 1) in
      let ring = wrap (top + capacity - kept + v) in
      let y = p.count + 1 - rows - kept + v in
      let t = s.top in
      let k = s.kept in
      let n = s.enough in
      fill-row b.cells ring (wrap (top + (rows - 1))) x blank hx
      ∙ elim (Bool-cases (y == p.count)) [
        | inl last ↦
            let here : (ring == wrap (top + (rows - 1))) ≡ true = ground arith in
            rw (here, last) refl
        | inr above ↦
            let other : (ring == wrap (top + (rows - 1))) ≡ false = ground arith in
            rw (other, above)
              (cell_of (v + 1 + b.scrollback_count - kept) x ring y (ground arith) hx (ground arith)
                (ground arith))
      ]

  pub scroll-Shows : Shows (scroll b) (append_blank p)
  unfolding scroll
  scroll-Shows =
      let kept' : (scroll b).scrollback_count ≡ min (capacity - rows) (p.count + 1 - rows) =
        ground (arith, s.kept, s.enough) in
      record {
        top = omega (arith, s.top);
        enough = omega (arith, s.enough);
        kept = kept';
        cells = λ v x. scroll-cells (scroll b).scrollback_count v x kept';
      }

  rotate_to_zero-Shows : Shows (rotate_to_zero b) p
  rotate_to_zero-Shows = elim (Bool-cases (b.top_row == 0)) [
    | inl zero_top ↦ rw zero_top s
    | inr other ↦ rw other record {
      top = omega arith;
      enough = s.enough;
      kept = s.kept;
      cells = λ v x hv hx.
          let t = s.top in
          let k = s.kept in
          ap b.cells (omega arith) ∙ cell_of v x (ring_index b v) _ hv hx refl refl;
    }
  ]

  pub get_text_buffer-Shows :
      Shows (get_text_buffer b) p × ((get_text_buffer b).top_row + rows ≤ capacity)
  unfolding get_text_buffer
  get_text_buffer-Shows = elim (Bool-cases (ltb capacity (b.top_row + rows))) [
    | inl wrapped ↦ rw wrapped (rotate_to_zero-Shows, ground arith)
    | inr whole ↦ rw whole (s, ground arith)
  ]

-- A write to a screen that is in one piece.
fill-Shows :
    (b : TextBuffer) (p : Page) (from to : ℕ) (cell : TextCell)
    → Shows b p
    → b.top_row + rows ≤ capacity
    → to ≤ rows * cols
    → Shows
        (record {
          cells = fill b.cells (b.top_row * cols) from to cell;
          top_row = b.top_row;
          scrollback_count = b.scrollback_count;
        })
        (write_last p from to cell)
fill-Shows b p from to cell s piece h = record {
  top = s.top;
  enough = s.enough;
  kept = s.kept;
  cells = λ v x hv hx.
      let t = s.top in
      let k = s.kept in
      let n = s.enough in
      let y = p.count - rows - b.scrollback_count + v in
      let same_test : (leb (b.top_row * cols + from) (ring_index b v * cols + x)
            && ltb (ring_index b v * cols + x) (b.top_row * cols + to))
          ≡ (leb (p.count - rows) y
              && leb from ((y - (p.count - rows)) * cols + x)
              && ltb ((y - (p.count - rows)) * cols + x) to) =
        elim (Bool-cases (ltb v b.scrollback_count)) [
          | inl above ↦
              let out : (ring_index b v + 1 ≤ b.top_row) ⊎ (b.top_row + rows ≤ ring_index b v) =
                elim (Bool-cases (ltb (b.top_row + v) b.scrollback_count)) [
                  | inl around ↦ inr (ground arith)
                  | inr straight ↦ inl (ground arith)
                ] in
              elim out [ inl low ↦ ground arith | inr high ↦ ground arith ]
          | inr screen ↦
              let r : ring_index b v ≡ b.top_row + (v - b.scrollback_count) = ground arith in
              let d : y - (p.count - rows) ≡ v - b.scrollback_count = ground arith in ground arith
        ] in
      rw same_test (
        ap
          (λ (c : TextCell).
            if leb (p.count - rows) y
              && leb from ((y - (p.count - rows)) * cols + x)
              && ltb ((y - (p.count - rows)) * cols + x) to
            then cell
            else c)
          (s.cells v x hv hx));
}

pub write_cells-Shows :
    (b : TextBuffer) (p : Page) (from to : ℕ) (cell : TextCell)
    → Shows b p
    → to ≤ rows * cols
    → (b' : TextBuffer) × (write_cells b from to cell ≡ done b')
      × Shows b' (write_last p from to cell)
unfolding write_cells
write_cells-Shows b p from to cell s h =
    let (s', piece) = get_text_buffer-Shows b p s in
    let inside : (ltb from to && ltb (rows * cols) to) ≡ false = ground arith in
    (_, rw inside refl, fill-Shows (get_text_buffer b) p from to cell s' piece h)

-- What the terminal does to its buffer: it scrolls, asks for the screen in one piece, or writes to it.
pub data Call : Type 0 where
  scroll_call look_call : Call
  write_call : ℕ → ℕ → TextCell → Call

unfoldable pub run : List Call → TextBuffer → Outcome TextBuffer
run [] b = done b
run (scroll_call ∷ calls) b = run calls (scroll b)
run (look_call ∷ calls) b = run calls (get_text_buffer b)
run (write_call from to cell ∷ calls) b = write_cells b from to cell >>= (λ b'. run calls b')

abbrev pub run_page : List Call → Page → Page
run_page [] p = p
run_page (scroll_call ∷ calls) p = run_page calls (append_blank p)
run_page (look_call ∷ calls) p = run_page calls p
run_page (write_call from to cell ∷ calls) p = run_page calls (write_last p from to cell)

-- Every write lies on the screen.
abbrev pub OnScreen : List Call → Type 0
OnScreen [] = Unit {0}
OnScreen (scroll_call ∷ calls) = OnScreen calls
OnScreen (look_call ∷ calls) = OnScreen calls
OnScreen (write_call from to cell ∷ calls) = (to ≤ rows * cols) × OnScreen calls

run-Shows :
    (calls : List Call) (b : TextBuffer) (p : Page)
    → OnScreen calls
    → Shows b p
    → (b' : TextBuffer) × (run calls b ≡ done b') × Shows b' (run_page calls p)
unfolding run
run-Shows [] b p on s = (b, refl, s)
run-Shows (scroll_call ∷ calls) b p on s =
    run-Shows calls (scroll b) (append_blank p) on (scroll-Shows b p s)
run-Shows (look_call ∷ calls) b p on s =
    run-Shows calls (get_text_buffer b) p on (get_text_buffer-Shows b p s).0
run-Shows (write_call from to cell ∷ calls) b p (here, on) s =
    let (b1, e, s1) = write_cells-Shows b p from to cell s here in
    let (b', e', s') = run-Shows calls b1 (write_last p from to cell) on s1 in (b', rw e e', s')

abbrev pub first_page : (ℕ → TextCell) → Page
first_page cells = record { count = rows; cell_at = λ y x. cells (y * cols + x) }

-- After any scrolls, looks and writes to the screen of a new buffer, nothing has ended the kernel, and the
-- rows of the scrollback and the screen, from the oldest to the last, are the last rows of the page to
-- which every scroll appended a blank row and every write was made in its last 25 rows: all rows of
-- the page, or 50 if it has more.
pub run-row :
    (calls : List Call) (cells : ℕ → TextCell)
    → OnScreen calls
    → let page = run_page calls (first_page cells) in
      (b' : TextBuffer) × (run calls (allocate cells) ≡ done b')
      × (b'.scrollback_count + rows ≡ min capacity page.count)
      × ((v x : ℕ)
          → v < min capacity page.count
          → x < cols
          → row b' v x ≡ done (page.cell_at (page.count - min capacity page.count + v) x))
unfolding row
run-row calls cells on =
    let first : Shows (allocate cells) (first_page cells) = record {
      top = omega arith;
      enough = omega arith;
      kept = omega arith;
      cells = λ v x hv hx. ap cells (omega arith);
    } in
    let (b', e, s) = run-Shows calls (allocate cells) (first_page cells) on first in
    let page = run_page calls (first_page cells) in
    let k = s.kept in
    let n = s.enough in
    let total : b'.scrollback_count + rows ≡ min capacity page.count = omega arith in
    (
      b',
      e,
      total,
      λ v x hv hx.
          let inside : ltb v (b'.scrollback_count + rows) ≡ true = ground arith in
          rw inside (
            ap done
              (s.cells v x (omega arith) hx ∙ ap (λ (y : ℕ). page.cell_at y x) (omega arith))),
    )
