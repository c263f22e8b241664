-- ===== src/Term/Search.antt =====
-- rata_shell/src/term.rs: `TermHost::search_next`. Lines and offsets are `i32` in the source, far below its
-- bounds.
pub mod Offsets
pub mod Shown
pub mod Again
pub mod Rest
use scshell.Base.{
  ℕ, suc, ◌+◌, ◌-◌, Bool, true, false, not, ◌&&◌, ◌||◌, List, [], ◌∷◌, Option, none, some, leb,
  ◌==◌, if◌then◌else◌, as_u16, Bytes, ℤ, pos, negsuc, pos_part, neg_part, sub_ℕ, ◌+ℤ◌, ◌-ℤ◌, ltb_ℤ,
}
use scshell.Term.{Size, Point, Scroll, delta, View, Emulator, TermHost}

-- `a == b` on texts.
unfoldable pub same_text : Bytes → Bytes → Bool
same_text [] [] = true
same_text [] (d ∷ ds) = false
same_text (c ∷ cs) [] = false
same_text (c ∷ cs) (d ∷ ds) = c == d && same_text cs ds

abbrev pub is_empty : Bytes → Bool
is_empty [] = true
is_empty (c ∷ cs) = false

-- The result; no match is `(0, 0, 0)`.
pub record Match : Type 0 where
  pub col : ℕ
  pub row : ℕ
  pub len : ℕ

abbrev pub no_match : Match
no_match = record { col = 0; row = 0; len = 0 }

-- Of a match that begins at `start` and ends at `last`, on its first line alone.
unfoldable pub match_len : Size → Point → Point → ℕ
match_len size start last =
    if not (ltb_ℤ last.line start.line) && not (ltb_ℤ start.line last.line)
    then (last.column + 1) - start.column
    else size.cols - start.column

module _ {E : Type 0} (em : Emulator E) where
  -- A new pattern starts from the beginning.
  unfoldable pub with_pattern : TermHost E → Bytes → TermHost E
  with_pattern t pattern =
      if not (same_text t.search_pattern pattern)
      then record t { search_pattern = pattern; search_origin = none }
      else t

  -- One cell behind the last match, or the cursor.
  unfoldable pub origin : TermHost E → Bool → Point
  origin t forward = elim t.search_origin [
    | some p ↦ if forward then em.point_add t.term p else em.point_sub t.term p
    | none ↦ let v = em.view t.term in record { line = v.cursor_line; column = v.cursor_column }
  ]

  -- The whole scrollback is searched, from the origin to its last or its first cell.
  unfoldable pub find : TermHost E → Bytes → Bool → Option (Point × Point)
  find t pattern forward =
      if forward
      then em.regex_search_right t.term pattern (origin t forward)
          (record { line = pos t.size.lines -ℤ pos 1; column = t.size.cols - 1 })
      else em.regex_search_left t.term pattern (origin t forward)
          (record { line = sub_ℕ 0 (em.view t.term).history_size; column = 0 })

  -- The scroll that brings a line into the viewport.
  unfoldable pub reveal : TermHost E → ℤ → E
  reveal t line =
      let off = pos (em.view t.term).display_offset in
      let rows = pos t.size.lines in
      if ltb_ℤ line (pos 0 -ℤ off)
      then em.scroll_display t.term (delta (pos 0 -ℤ off -ℤ line))
      else if ltb_ℤ (rows -ℤ pos 1 -ℤ off) line
      then em.scroll_display t.term (delta (rows -ℤ pos 1 -ℤ off -ℤ line))
      else t.term

  -- A match is kept as the search cursor and scrolled to, and then told by its row of the viewport.
  unfoldable pub show_match : TermHost E → Point → Point → TermHost E × Match
  unfolding match_len reveal
  show_match t start last =
      let term = reveal t start.line in
      let t' = record t { search_origin = some start; term = term } in
      let row = start.line +ℤ pos (em.view term).display_offset in
      if ltb_ℤ row (pos 0) || not (ltb_ℤ row (pos t.size.lines)) then (t', no_match) else (
        t',
        record {
          col = as_u16 start.column;
          row = as_u16 (pos_part row);
          len = as_u16 (match_len t.size start last);
        },
      )

  unfoldable pub search_next : TermHost E → Bytes → Bool → TermHost E × Match
  unfolding with_pattern find show_match
  search_next t pattern forward =
      if is_empty pattern || not (em.regex_compiles pattern)
      then (t, no_match)
      else let t = with_pattern t pattern in
        elim (find t pattern forward) [
          | some (start, last) ↦ show_match t start last
          | none ↦ (record t { search_origin = none }, no_match)
        ]
