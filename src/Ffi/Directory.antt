-- ===== src/Ffi/Directory.antt =====
-- The working directory, from the shell's report to the buffer of the host.
use scshell.Base.{
  ℕ, ◌+◌, ◌≤◌, ◌∷◌, ◌++◌, [], some, none, ◌≡◌, refl, true, All, Bytes, IsByte, length,
}
use scshell.Utf8.{is_utf8}
use scshell.Osc7.{scan}
use scshell.Osc7.Reports.{IsEnd, report}
use scshell.Osc7.Paths.{IsHost, file_url, named_path, scan-report-file_url}
use scshell.Term.{Emulator, TermHost, advance}
use scshell.Ffi.{copy_out, get_cwd}
use scshell.Ffi.Copies.{copy_out_whole}

-- The two calls of `get_cwd` by a host: one for the length, one with a buffer of one byte more.
pub record IsHanded {E : Type 0} (t : TermHost E) (path : Bytes) : Type 0 where
  pub asked : get_cwd (some t) none 0 ≡ some (length path, none)
  pub handed :
      (mem : Bytes)
      → length mem ≡ length path + 1
      → get_cwd (some t) (some mem) (length path + 1) ≡ some (length path, some (path ++ 0 ∷ []))

get_cwd-IsHanded : {E : Type 0} (t : TermHost E) → IsHanded t t.osc7.cwd
unfolding get_cwd copy_out
get_cwd-IsHanded t = record { asked = refl; handed = λ mem e. (copy_out_whole t.osc7.cwd mem e).1 }

-- End to end: when the shell has reported the absolute UTF-8 path `/p` by a url of at most 4096 bytes,
-- to a terminal whose scanner is idle or behind an ESC, the host gets that path with its two calls,
-- less its first `/` where `p` is one byte, a `:` and anything behind, as in `/C:/dir`, and with a NUL
-- behind it.
pub advance-IsHanded :
    {E : Type 0} (em : Emulator E) (t : TermHost E) (host p : Bytes) (end : ℕ)
    → t.osc7.state ≤ 1
    → All IsHost host
    → All IsByte p
    → is_utf8 (b'/' ∷ p) ≡ true
    → length (file_url host (b'/' ∷ p)) ≤ 4096
    → IsEnd end
    → IsHanded (advance em t (report (file_url host (b'/' ∷ p)) end)) (named_path p)
unfolding advance scan
advance-IsHanded em t host p end s h hp u room stop =
    let after = advance em t (report (file_url host (b'/' ∷ p)) end) in
    rw (scan-report-file_url t.osc7 host p end s h hp u room stop) at (get_cwd-IsHanded after)
