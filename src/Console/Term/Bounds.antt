-- ===== src/Console/Term/Bounds.antt =====
-- Whatever is written to a terminal, its cursor stays on the screen, and its buffer sees only scrolls and
-- writes to the screen.
use idos_nx.Base.{
  ℕ, ◌+◌, ◌*◌, ◌%◌, ◌≤◌, ◌<◌, ◌≡◌, refl, sym, ap, ◌∙◌, ◌≢◌, inl, inr, Bool, true, false, ◌&&◌, ◌||◌,
  List, [], ◌∷◌, ◌++◌, arith, ltb, leb, ◌==◌, if◌then◌else◌, Bool-cases,
}
use idos_nx.Base.Results.{Outcome, done, panic, ◌>>=◌, Outcome-cases}
use idos_nx.Console.Text.{
  cols, rows, TextCell, TextBuffer, blank, get_text_buffer, write_cells, scroll, allocate,
}
use idos_nx.Console.Text.Page.{Call, scroll_call, look_call, write_call, OnScreen}
use idos_nx.Console.Text.Page
use idos_nx.Console.Term.{
  normal, escape, csi, Terminal, new, carriage_return, newline, advance_cursor, on_buffer,
  put_raw_character, clear_buffer, handle_sgr, handle_sgrs, erase_in_line, handle_csi, write_normal,
  write_csi, write_character,
}

abbrev pub OnPlace : Terminal → Type 0
OnPlace t = (t.cursor_x < cols) × (t.cursor_y < rows)

-- The cursor is on the screen, and the buffer is what these calls made of another.
abbrev Steps : Terminal → Terminal → Type 0
Steps t t' =
    OnPlace t'
    × (calls : List Call) × OnScreen calls
    × (Page.run calls t.text_buffer ≡ done t'.text_buffer)

-- The operation does not end the kernel.
abbrev Does : Terminal → Outcome Terminal → Type 0
Does t result = (t' : Terminal) × (result ≡ done t') × Steps t t'

done-ne-panic : (b : TextBuffer) → done b ≢ panic
done-ne-panic b e = cc

run-append :
    (first second : List Call) (b b1 : TextBuffer)
    → Page.run first b ≡ done b1
    → Page.run (first ++ second) b ≡ Page.run second b1
unfolding Page.run
run-append [] second b b1 e = ap (λ (o : Outcome TextBuffer). o >>= (λ x. Page.run second x)) e
run-append (scroll_call ∷ first) second b b1 e = run-append first second (scroll b) b1 e
run-append (look_call ∷ first) second b b1 e = run-append first second (get_text_buffer b) b1 e
run-append (write_call from to cell ∷ first) second b b1 e =
    elim (Outcome-cases (write_cells b from to cell)) [
      | inl fails ↦ absurd (done-ne-panic b1 (sym e ∙ rw fails refl))
      | inr (b2, q) ↦ rw q (run-append first second b2 b1 (sym (rw q refl) ∙ e))
    ]

OnScreen-append :
    (first second : List Call) → OnScreen first → OnScreen second → OnScreen (first ++ second)
OnScreen-append [] second on on' = on'
OnScreen-append (scroll_call ∷ first) second on on' = OnScreen-append first second on on'
OnScreen-append (look_call ∷ first) second on on' = OnScreen-append first second on on'
OnScreen-append (write_call from to cell ∷ first) second (h, on) on' =
    (h, OnScreen-append first second on on')

Does-then :
    (t t1 : Terminal) (result : Outcome Terminal) → Steps t t1 → Does t1 result → Does t result
Does-then t t1 result (_, first, on, e) (t2, e', (place, second, on', e'')) = (
  t2,
  e',
  (
    place,
    first ++ second,
    OnScreen-append first second on on',
    run-append first second t.text_buffer t1.text_buffer e ∙ e'',
  ),
)

-- A change of the cursor or of another field that is not the buffer.
still : (t t' : Terminal) → t'.text_buffer ≡ t.text_buffer → OnPlace t' → Steps t t'
unfolding Page.run
still t t' e place = (place, [], tt, ap done (sym e))

if_done :
    (test : Bool) (b : TextBuffer)
    → test ≡ false
    → (b' : TextBuffer) × ((if test then panic else done b) ≡ done b')
if_done test b e = (b, rw e refl)

write_cells-done :
    (b : TextBuffer) (from to : ℕ) (cell : TextCell)
    → to ≤ rows * cols
    → (b' : TextBuffer) × (write_cells b from to cell ≡ done b')
unfolding write_cells
write_cells-done b from to cell h = if_done (ltb from to && ltb (rows * cols) to) _ (ground arith)

on_buffer-Does :
    (t : Terminal) (from to : ℕ) (cell : TextCell)
    → OnPlace t
    → to ≤ rows * cols
    → (b : TextBuffer) × (on_buffer t from to cell ≡ done (record t { text_buffer = b }))
      × Steps t (record t { text_buffer = b })
unfolding Page.run
on_buffer-Does t from to cell place h =
    let (b, e) = write_cells-done t.text_buffer from to cell h in
    (b, rw e refl, (place, write_call from to cell ∷ [], (h, tt), rw e refl))

newline-Steps : (t : Terminal) → OnPlace t → Steps t (newline t)
unfolding newline Page.run
newline-Steps t (hx, hy) = elim (Bool-cases (leb rows ((t.cursor_y + 1) % 256))) [
  | inl last ↦ rw last ((hx, omega arith), scroll_call ∷ [], tt, refl)
  | inr above ↦ rw above ((hx, ground arith), [], tt, refl)
]

advance_cursor-Steps : (t : Terminal) → OnPlace t → Steps t (advance_cursor t)
unfolding advance_cursor Page.run
advance_cursor-Steps t (hx, hy) = elim (Bool-cases (leb cols ((t.cursor_x + 1) % 256))) [
  | inl last ↦ rw last (newline-Steps (record t { cursor_x = 0 }) (omega arith, hy))
  | inr inside ↦ rw inside ((ground arith, hy), [], tt, refl)
]

put_raw_character-Does : (t : Terminal) (ch : ℕ) → OnPlace t → Does t (put_raw_character t ch)
put_raw_character-Does t ch (hx, hy) =
    let offset = t.cursor_y * cols + t.cursor_x in
    let (b, e, s) =
      on_buffer-Does t offset (offset + 1) (record { glyph = ch; color = t.current_color }) (hx, hy)
        (omega arith) in
    let t1 : Terminal = record t { text_buffer = b } in
    Does-then t t1 _ s (advance_cursor t1, rw e refl, advance_cursor-Steps t1 (hx, hy))

-- A change without the buffer.
moved : (t t' : Terminal) → t'.text_buffer ≡ t.text_buffer → OnPlace t' → Does t (done t')
moved t t' e place = (t', refl, still t t' e place)

handle_sgr-same :
    (t : Terminal) (code : ℕ)
    → ((handle_sgr t code).cursor_x ≡ t.cursor_x)
      × ((handle_sgr t code).cursor_y ≡ t.cursor_y)
      × ((handle_sgr t code).text_buffer ≡ t.text_buffer)
unfolding handle_sgr
handle_sgr-same t code = (ground arith, ground arith, ground arith)

handle_sgrs-Steps : (t : Terminal) (codes : List ℕ) → OnPlace t → Steps t (handle_sgrs t codes)
unfolding handle_sgrs
handle_sgrs-Steps t [] place = still t t refl place
handle_sgrs-Steps t (code ∷ rest) (hx, hy) =
    let t1 = handle_sgr t code in
    let (ex, ey, eb) = handle_sgr-same t code in
    let (place, calls, on, e) = handle_sgrs-Steps t1 rest (omega (arith, ex), omega (arith, ey)) in
    (place, calls, on, ap (Page.run calls) (sym eb) ∙ e)

Does-if :
    (test : Bool) (t : Terminal) (x y : Outcome Terminal)
    → (test ≡ true → Does t x)
    → (test ≡ false → Does t y)
    → Does t (if test then x else y)
Does-if true t x y hx hy = hx refl
Does-if false t x y hx hy = hy refl

written :
    (t : Terminal) (from to : ℕ) (cell : TextCell)
    → OnPlace t
    → to ≤ rows * cols
    → Does t (on_buffer t from to cell)
written t from to cell place h =
    let (b, e, s) = on_buffer-Does t from to cell place h in (record t { text_buffer = b }, e, s)

erase_in_line-Does : (t : Terminal) (mode : ℕ) → OnPlace t → Does t (erase_in_line t mode)
unfolding erase_in_line Page.run
erase_in_line-Does t mode (hx, hy) =
    Does-if (mode == 0) t _ _ (λ e. written t _ _ _ (hx, hy) (omega arith))
      λ e.
        Does-if (mode == 1) t _ _ (λ e. written t _ _ _ (hx, hy) (omega arith))
          λ e.
            Does-if (mode == 2) t _ _ (λ e. written t _ _ _ (hx, hy) (omega arith))
              λ e. (
                record t { text_buffer = get_text_buffer t.text_buffer },
                refl,
                ((hx, hy), look_call ∷ [], tt, refl),
              )

cleared-Does :
    (t : Terminal)
    → OnPlace t
    → Does t (clear_buffer t >>= (λ t'. done (record t' { cursor_x = 0; cursor_y = 0 })))
cleared-Does t place =
    let (b, e, s) = on_buffer-Does t 0 (rows * cols) blank place (omega arith) in
    let t1 : Terminal = record t { text_buffer = b } in
    let t2 : Terminal = record t1 { cursor_x = 0; cursor_y = 0 } in
    Does-then t t1 _ s (t2, rw e refl, still t1 t2 refl (omega arith, omega arith))

handle_csi-Does : (t : Terminal) (final_char : ℕ) → OnPlace t → Does t (handle_csi t final_char)
unfolding handle_csi
handle_csi-Does t0 c (hx, hy) =
    let t : Terminal = record t0 { ansi_params = [] } in
    Does-if (c == b'A') t0 _ _ (λ e. moved t0 _ refl (hx, omega arith))
      λ e.
        Does-if (c == b'B') t0 _ _ (λ e. moved t0 _ refl (hx, omega arith))
          λ e.
            Does-if (c == b'C') t0 _ _ (λ e. moved t0 _ refl (omega arith, hy))
              λ e.
                Does-if (c == b'D') t0 _ _ (λ e. moved t0 _ refl (omega arith, hy))
                  λ e.
                    Does-if (c == b'H' || c == b'f') t0 _ _
                      (λ e. moved t0 _ refl (omega arith, omega arith))
                      λ e.
                        Does-if (c == b'G') t0 _ _ (λ e. moved t0 _ refl (omega arith, hy))
                          λ e.
                            Does-if (c == b'J') t0 _ _
                              (λ e.
                                Does-if _ t0 _ _ (λ e. cleared-Does t (hx, hy))
                                  (λ e. moved t0 t refl (hx, hy)))
                              λ e.
                                Does-if (c == b'K') t0 _ _ (λ e. erase_in_line-Does t _ (hx, hy))
                                  λ e.
                                    Does-if (c == b'm') t0 _ _
                                      (λ e. (_, refl, handle_sgrs-Steps t _ (hx, hy)))
                                      (λ e. moved t0 t refl (hx, hy))

write_normal-Does : (t : Terminal) (ch : ℕ) → OnPlace t → Does t (write_normal t ch)
unfolding write_normal
write_normal-Does t ch (hx, hy) =
    Does-if (ch == 0x08) t _ _ (λ e. moved t _ (ground arith) (ground arith, ground arith))
      λ e.
        Does-if (ch == 0x0a) t _ _
          (λ e. (_, refl, newline-Steps (carriage_return t) (omega arith, hy)))
          λ e.
            Does-if (ch == 0x0d) t _ _ (λ e. moved t _ refl (omega arith, hy))
              λ e.
                Does-if (ch == 0x1b) t _ _ (λ e. moved t _ refl (hx, hy))
                  λ e.
                    Does-if (ltb ch 0x20) t _ _ (λ e. moved t t refl (hx, hy))
                      λ e. put_raw_character-Does t ch (hx, hy)

write_csi-Does : (t : Terminal) (ch : ℕ) → OnPlace t → Does t (write_csi t ch)
unfolding write_csi
write_csi-Does t ch place =
    Does-if (leb 0x20 ch && leb ch 0x3f) t _ _ (λ e. moved t _ refl place)
      λ e.
        Does-if (leb 0x40 ch && leb ch 0x7e) t _ _
          (λ e.
            let (t1, e1, s) = handle_csi-Does t ch place in
            Does-then t t1 (handle_csi t ch >>= (λ t'. done (record t' { parse_state = normal }))) s
              (
                record t1 { parse_state = normal },
                rw e1 refl,
                still t1 (record t1 { parse_state = normal }) refl s.0,
              ))
          (λ e. moved t t refl place)

write_character-Does : (t : Terminal) (ch : ℕ) → OnPlace t → Does t (write_character t ch)
unfolding write_character
write_character-Does t ch place =
    elim t.parse_state
      as (λ state. Does t (elim state [
        | normal ↦ write_normal t ch
        | escape ↦
            if ch == b'['
            then done (record t { ansi_params = []; parse_state = csi })
            else done (record t { parse_state = normal })
        | csi ↦ write_csi t ch
      ])) [
        | normal ↦ write_normal-Does t ch place
        | escape ↦
            Does-if (ch == b'[') t (done (record t { ansi_params = []; parse_state = csi }))
              (done (record t { parse_state = normal })) (λ e. moved t _ refl place)
              (λ e. moved t _ refl place)
        | csi ↦ write_csi-Does t ch place
      ]

unfoldable pub write_all : List ℕ → Terminal → Outcome Terminal
write_all [] t = done t
write_all (ch ∷ rest) t = write_character t ch >>= (λ t'. write_all rest t')

write_all-Does : (bytes : List ℕ) (t : Terminal) → OnPlace t → Does t (write_all bytes t)
unfolding write_all
write_all-Does [] t place = moved t t refl place
write_all-Does (ch ∷ rest) t place =
    let (t1, e, s) = write_character-Does t ch place in
    let (t2, e2, s2) = write_all-Does rest t1 s.0 in Does-then t t1 _ s (t2, rw e e2, s2)

-- Whatever bytes are written to a new terminal, with any escape sequences among them and any
-- parameters in these, the kernel is not ended by an index out of bounds: the cursor is on the screen
-- of 80 columns and 25 rows, and the text buffer is what scrolls, looks and writes to the screen made
-- of the new one.
pub write_all_lem :
    (bytes : List ℕ) (cells : ℕ → TextCell)
    → (t : Terminal) × (write_all bytes (new cells) ≡ done t)
      × (t.cursor_x < cols)
      × (t.cursor_y < rows)
      × (calls : List Call) × OnScreen calls
      × (Page.run calls (allocate cells) ≡ done t.text_buffer)
write_all_lem bytes cells =
    let (t, e, (place, calls, on, same)) =
      write_all-Does bytes (new cells) (omega arith, omega arith) in
    (t, e, place.0, place.1, calls, on, same)
