-- ===== src/Term/Alacritty.antt =====
-- What rata_shell/src/term.rs sees of alacritty_terminal: its data, and its calls as a parameter.
use scshell.Base.{ℕ, Bool, List, Option, max, Bytes, ℤ}
use scshell.Cell.{AtCell}

pub record Size : Type 0 where
  pub cols : ℕ
  pub lines : ℕ

-- `Size::new`
abbrev pub size_new : ℕ → ℕ → Size
size_new cols lines = record { cols = max cols 2; lines = max lines 1 }

-- The bits of alacritty's `TermMode` that the source asks for.
pub record Mode : Type 0 where
  pub alt_screen : Bool
  pub app_cursor : Bool
  pub app_keypad : Bool
  pub bracketed_paste : Bool
  pub mouse_report_click : Bool
  pub mouse_drag : Bool
  pub mouse_motion : Bool
  pub sgr_mouse : Bool
  pub utf8_mouse : Bool
  pub show_cursor : Bool
  pub vi : Bool

pub data CursorShape : Type 0 where
  block underline beam hollow_block hidden : CursorShape

-- What the source reads of the emulator: `grid[Line(l)][Column(c)]`, `display_offset`, `history_size`,
-- the cursor, whether there is a selection, and the mode.
pub record View : Type 0 where
  pub at : ℤ → ℕ → AtCell
  pub display_offset : ℕ
  pub cursor_line : ℤ
  pub cursor_column : ℕ
  pub history_size : ℕ
  pub selecting : Bool
  pub shape : CursorShape
  pub blinking : Bool
  pub mode : Mode

-- `Event`; the others are ignored by the source.
pub data Event : Type 0 where
  title clipboard_store pty_write : Bytes → Event
  reset_title bell other : Event

-- `Point`: a negative line is in the history.
pub record Point : Type 0 where
  pub line : ℤ
  pub column : ℕ

pub data Scroll : Type 0 where
  delta : ℤ → Scroll
  top bottom : Scroll

pub data SelectionType : Type 0 where
  simple block_wise semantic lines_wise : SelectionType

pub data ViMotion : Type 0 where
  up down left right first last first_occupied high middle low : ViMotion
  word_left word_right word_left_end word_right_end : ViMotion
  semantic_left semantic_right semantic_left_end semantic_right_end : ViMotion
  bracket paragraph_up paragraph_down : ViMotion

-- The calls of the emulator, on a state `E` of its own. `advance` also returns the events that it sends
-- to the listener; a regex stands for its pattern; `point_add` and `point_sub` step by one cell inside
-- the grid.
pub record Emulator (E : Type 0) : Type 0 where
  pub create : (scrollback : ℕ) → Size → E
  pub advance : E → Bytes → E × List Event
  pub resize : E → Size → E
  pub view : E → View
  pub scroll_display : E → Scroll → E
  pub clear_saved : E → E
  pub toggle_vi_mode : E → E
  pub vi_motion : E → ViMotion → E
  pub new_selection : E → SelectionType → Point → E
  pub update_selection : E → Point → E
  pub clear_selection : E → E
  pub selection_to_string : E → Option Bytes
  pub regex_compiles : Bytes → Bool
  pub regex_search_right : E → Bytes → Point → Point → Option (Point × Point)
  pub regex_search_left : E → Bytes → Point → Point → Option (Point × Point)
  pub point_add : E → Point → Point
  pub point_sub : E → Point → Point
