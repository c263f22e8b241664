-- ===== src/Tests/Search.antt =====
-- A search that finds a line of the history.
use scshell.Base.{true, false, some, ◌≡◌, refl, arith, subst, codes}
use scshell.Term.{size_new}
use scshell.Term.Cursor.{size_new-IsSized}
use scshell.Term.Search.{
  find, with_pattern, search_next, show_match, same_text, match_len, reveal, origin,
}
use scshell.Term.Search.Shown.{
  InGrid, Answer, InsideLaw, IsShown, show_match-IsShown, search_next-Answer,
}
use scshell.Tests.Pager.{pager, pager-ScrollLaw, at_end, match_start, match_last}

match-InGrid : InGrid (size_new 4 2) (pager.view 0) match_start match_last
match-InGrid = record {
  above = omega arith;
  below = omega arith;
  start_column = omega arith;
  last_column = omega arith;
  ordered = λ e. omega arith;
}

matches-InGrid : InsideLaw pager pager-ScrollLaw (with_pattern pager at_end (codes "a"))
unfolding find with_pattern same_text
matches-InGrid pattern true start last e =
    let first : match_start ≡ start = cc in
    let second : match_last ≡ last = cc in
    subst (λ s. InGrid (size_new 4 2) (pager.view 0) s last) first
      (subst (λ l. InGrid (size_new 4 2) (pager.view 0) match_start l) second match-InGrid)
matches-InGrid pattern false start last e = cc

search_next-Answer_example :
    Answer pager pager-ScrollLaw at_end (codes "a") true (search_next pager at_end (codes "a") true)
search_next-Answer_example =
    search_next-Answer pager pager-ScrollLaw at_end (codes "a") true
      (size_new-IsSized 4 2 (omega arith) (omega arith)) matches-InGrid

-- The viewport is scrolled to the fourth line up, and the match stands in its first row.
search_run :
    ((search_next pager at_end (codes "a") true).0.term ≡ 4)
    × ((search_next pager at_end (codes "a") true).1 ≡ record { col = 1; row = 0; len = 2 })
unfolding search_next with_pattern same_text find show_match match_len reveal origin
search_run = (refl, refl)

found_at :
    find pager (with_pattern pager at_end (codes "a")) (codes "a") true
    ≡ some (match_start, match_last)
unfolding find with_pattern same_text
found_at = refl

-- The match on the screen.
on_screen :
    IsShown pager pager-ScrollLaw
      (size_new 4 2)
      match_start
      match_last
      (show_match pager at_end match_start match_last)
on_screen =
    show_match-IsShown pager pager-ScrollLaw at_end match_start match_last
      (size_new-IsSized 4 2 (omega arith) (omega arith)) match-InGrid
