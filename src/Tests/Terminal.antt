-- ===== src/Tests/Terminal.antt =====
-- A terminal over a toy emulator, which shows its output from the top left, every byte in a cell.
use scshell.Base.{
  ℕ, zero, suc, ◌+◌, ◌*◌, true, false, List, [], ◌∷◌, ◌++◌, none, some, ◌≡◌, refl, arith, Bytes,
  All, ℤ, pos, negsuc, ◌==◌, if◌then◌else◌,
}
use scshell.Cell.{HostCell, AtCell, AtFlags}
use scshell.Color.{named, foreground, background}
use scshell.Uri.{hash_uri}
use scshell.Backend.Dirty.{Screen}
use scshell.Term.{
  size_new, Mode, block, Emulator, TermHost, SnapshotMeta, bell, snapshot, grid_cells, get,
}
use scshell.Term.Cursor.{size_new-IsSized}
use scshell.Term.Links.{IsHashed}
use scshell.Term.Render.{IsFrame, snapshot-IsFrame}
use scshell.Term.Clicks.{IsClickable, snapshot-hyperlink_uri}

abbrev plain : AtFlags
plain = record {
  bold = false;
  dim = false;
  italic = false;
  any_underline = false;
  inverse = false;
  hidden = false;
  strikeout = false;
  wide_char = false;
  wide_char_spacer = false;
}

abbrev byte_at : Bytes → ℕ → ℕ
byte_at [] n = b' '
byte_at (b ∷ bs) zero = b
byte_at (b ∷ bs) (suc n) = byte_at bs n

abbrev cell_of : ℕ → AtCell
cell_of b = record {
  c = b;
  flags = plain;
  fg = named foreground;
  bg = named background;
  hyperlink = if b == b'@' then some (b'a' ∷ b ∷ []) else none;
}

abbrev cell_at : Bytes → ℤ → ℕ → AtCell
cell_at bs (pos l) c = cell_of (byte_at bs (l * 4 + c))
cell_at bs (negsuc l) c = cell_of b' '

abbrev toy_mode : Mode
toy_mode = record {
  alt_screen = false;
  app_cursor = true;
  app_keypad = false;
  bracketed_paste = true;
  mouse_report_click = false;
  mouse_drag = false;
  mouse_motion = false;
  sgr_mouse = true;
  utf8_mouse = false;
  show_cursor = true;
  vi = false;
}

abbrev pub toy : Emulator Bytes
toy = record {
  create = λ scrollback size. [];
  advance = λ seen bytes. (seen ++ bytes, bell ∷ []);
  resize = λ seen size. seen;
  scroll_display = λ seen scroll. seen;
  clear_saved = λ seen. seen;
  toggle_vi_mode = λ seen. seen;
  vi_motion = λ seen motion. seen;
  new_selection = λ seen kind p. seen;
  update_selection = λ seen p. seen;
  clear_selection = λ seen. seen;
  selection_to_string = λ seen. none;
  regex_compiles = λ pattern. true;
  regex_search_right = λ seen pattern from to. none;
  regex_search_left = λ seen pattern from to. none;
  point_add = λ seen p. p;
  point_sub = λ seen p. p;
  view = λ seen. record {
    at = cell_at seen;
    display_offset = 1;
    cursor_line = pos 0;
    cursor_column = 2;
    history_size = 3;
    selecting = false;
    shape = block;
    blinking = false;
    mode = toy_mode;
  };
}

abbrev blank : Screen
blank y = []

-- A terminal of 4 columns and 2 lines that has read `@`.
abbrev at_sign : TermHost Bytes
at_sign = record {
  term = b'@' ∷ [];
  size = size_new 4 2;
  queue = [];
  current_title = [];
  osc7 = record { state = 0; buf = []; cwd = [] };
  hyperlinks = [];
  search_pattern = [];
  search_origin = none;
}

no_links : IsHashed []
unfolding get
no_links = record { hashed = λ id uri h. cc }

snapshot-IsFrame_example : IsFrame toy at_sign
snapshot-IsFrame_example =
    snapshot-IsFrame toy at_sign (size_new-IsSized 4 2 (omega arith) (omega arith)) no_links

snapshot-hyperlink_uri_example :
    (after : TermHost Bytes) × (cells : List HostCell) × (meta : SnapshotMeta) × (snapshot toy
        at_sign
      ≡ some (after, cells, meta))
    × All (λ (c : AtCell). IsClickable after c.hyperlink) (grid_cells 2 0 4 (toy.view at_sign.term))
snapshot-hyperlink_uri_example =
    snapshot-hyperlink_uri toy at_sign (size_new-IsSized 4 2 (omega arith) (omega arith)) no_links

-- Two texts with one id.
same_id :
    hash_uri (b'c' ∷ b'o' ∷ b's' ∷ b't' ∷ b'a' ∷ b'r' ∷ b'r' ∷ b'i' ∷ b'n' ∷ b'g' ∷ [])
    ≡ hash_uri (b'l' ∷ b'i' ∷ b'q' ∷ b'u' ∷ b'i' ∷ b'd' ∷ [])
unfolding hash_uri
same_id = refl
