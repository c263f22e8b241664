-- ===== src/Tests/Pager.antt =====
-- A toy emulator with a history of five lines, which finds every text two columns wide, four lines up.
use scshell.Base.{ℕ, true, [], ◌∷◌, none, some, ◌≡◌, arith, min, ℤ, pos, negsuc, codes, ◌+ℤ◌}
use scshell.Term.{Point, Scroll, delta, top, bottom, size_new, pty_write, Emulator, TermHost}
use scshell.Term.Search.Offsets.{clamp_to}
use scshell.Term.Search.Shown.{ScrollLaw}
use scshell.Io.Written.{AnswerLaw}
use scshell.Tests.Terminal.{toy}

abbrev scrolled_to : ℕ → Scroll → ℕ
scrolled_to e (delta d) = clamp_to 5 (pos (min e 5) +ℤ d)
scrolled_to e top = 5
scrolled_to e bottom = 0

abbrev pub match_start : Point
match_start = record { line = negsuc 3; column = 1 }

abbrev pub match_last : Point
match_last = record { line = negsuc 3; column = 2 }

abbrev pub pager : Emulator ℕ
pager = record {
  create = λ scrollback size. 0;
  advance = λ e bytes. (e, pty_write (codes "ok") ∷ []);
  resize = λ e size. e;
  scroll_display = scrolled_to;
  clear_saved = λ e. e;
  toggle_vi_mode = λ e. e;
  vi_motion = λ e motion. e;
  new_selection = λ e kind p. e;
  update_selection = λ e p. e;
  clear_selection = λ e. e;
  selection_to_string = λ e. some (codes "picked");
  regex_compiles = λ pattern. true;
  regex_search_right = λ e pattern from to. some (match_start, match_last);
  regex_search_left = λ e pattern from to. none;
  point_add = λ e p. p;
  point_sub = λ e p. p;
  view = λ e. record (toy.view []) { display_offset = min e 5; history_size = 5 };
}

clamped : (x : ℤ) → min (clamp_to 5 x) 5 ≡ clamp_to 5 x
clamped (pos k) = omega arith
clamped (negsuc k) = omega arith

pub pager-ScrollLaw : ScrollLaw pager
pager-ScrollLaw = record {
  scrolled = λ e d. clamped (pos (min e 5) +ℤ d);
  within = λ e. omega arith;
}

pub pager-AnswerLaw : AnswerLaw pager
pager-AnswerLaw = record { answers = λ e bytes. (tt, tt) }

-- Four columns and two lines, at the end of the history.
abbrev pub at_end : TermHost ℕ
at_end = record {
  term = 0;
  size = size_new 4 2;
  queue = [];
  current_title = [];
  osc7 = record { state = 0; buf = []; cwd = [] };
  hyperlinks = [];
  search_pattern = [];
  search_origin = none;
}
