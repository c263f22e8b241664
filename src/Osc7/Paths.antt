-- ===== src/Osc7/Paths.antt =====
-- What the scanner makes of a url: a shell that reports a directory is understood.
use scshell.Base.{
  ◌==◌, if◌then◌else◌, ℕ, ◌≤◌, ◌<◌, true, [], ◌∷◌, ◌++◌, List, ◌≡◌, ◌≢◌, refl, ap, ◌∙◌, arith,
  Bytes, IsByte, All, All-append, length, some,
}
use scshell.Utf8.{is_utf8, is_utf8_ascii, from_utf8_lossy-eq_self}
use scshell.Uri.Escapes.{percent_encode, percent_decode-percent_encode}
use scshell.Osc7.{Osc7, file_scheme, from_slash, drive_path, cwd_of_url, scan}
use scshell.Osc7.Reports.{IsBody, IsEnd, report, scan-report}

-- A byte of a host name: ASCII from the space on, but no `/`.
abbrev pub IsHost : ℕ → Type 0
IsHost c = (0x20 ≤ c) × (c < 0x80) × (c ≢ b'/')

-- `file://host/path` of an absolute path, which begins with `/`.
abbrev pub file_url : Bytes → Bytes → Bytes
file_url host path = file_scheme ++ (host ++ percent_encode path)

-- A byte of a url: ASCII from the space on.
abbrev IsUrl : ℕ → Type 0
IsUrl c = (0x20 ≤ c) × (c < 0x80)

percent_encode-IsUrl : (s : Bytes) → All IsByte s → All IsUrl (percent_encode s)
unfolding percent_encode
percent_encode-IsUrl [] h = tt
percent_encode-IsUrl (c ∷ cs) (hc, hs) = ground (arith, percent_encode-IsUrl cs hs)

All-map {ℓ} :
    {A : Type ℓ} {P Q : A → Type 0} (f : (a : A) → P a → Q a) (xs : List A) → All P xs → All Q xs
All-map f [] h = tt
All-map f (x ∷ xs) h = (f x h.0, All-map f xs h.1)

file_url-IsUrl :
    (host path : Bytes) → All IsHost host → All IsByte path → All IsUrl (file_url host path)
file_url-IsUrl host path h p =
    All-append IsUrl file_scheme _ (omega arith)
      (All-append IsUrl host _ (All-map (λ c k. (k.0, k.1)) host h) (percent_encode-IsUrl path p))

from_slash-host :
    (host rest : Bytes) → All IsHost host → from_slash (host ++ b'/' ∷ rest) ≡ some (b'/' ∷ rest)
unfolding from_slash
from_slash-host [] rest h = refl
from_slash-host (c ∷ host) rest (hc, hs) = ground (arith, from_slash-host host rest hs)

percent_encode_slash : (p : Bytes) → percent_encode (b'/' ∷ p) ≡ b'/' ∷ percent_encode p
unfolding percent_encode
percent_encode_slash p = refl

-- What the shell means by the absolute path `/p`: `p` itself where one byte and a `:` begin it, as in
-- `/C:/dir`, and `/p` elsewhere.
abbrev pub named_path : Bytes → Bytes
named_path (d ∷ c ∷ rest) = if c == b':' then d ∷ c ∷ rest else b'/' ∷ d ∷ c ∷ rest
named_path p = b'/' ∷ p

drive_path-named_path : (p : Bytes) → drive_path (b'/' ∷ p) ≡ named_path p
unfolding drive_path
drive_path-named_path [] = refl
drive_path-named_path (d ∷ []) = refl
drive_path-named_path (d ∷ c ∷ rest) = refl

-- The url of an absolute path is read back as the path that it names.
pub cwd_of_url-file_url :
    (host p : Bytes)
    → All IsHost host
    → All IsByte p
    → is_utf8 (b'/' ∷ p) ≡ true
    → cwd_of_url (file_url host (b'/' ∷ p)) ≡ named_path p
unfolding cwd_of_url
cwd_of_url-file_url host p h hp u =
    rw (percent_encode_slash p, from_slash-host host (percent_encode p) h)
      (rw (← percent_encode_slash p, percent_decode-percent_encode (b'/' ∷ p) (omega arith, hp) u)
        (drive_path-named_path p))

-- End to end, for a scanner that is idle or behind an ESC: a shell that reports the absolute UTF-8
-- path `/p` by a url of at most 4096 bytes, with any host name of ASCII from the space on without
-- `/` and either terminator, sets the directory to `/p`, less its first `/`
-- where `p` is one byte, a `:` and anything behind, as in `/C:/dir`.
pub scan-report-file_url :
    (t : Osc7) (host p : Bytes) (end : ℕ)
    → t.state ≤ 1
    → All IsHost host
    → All IsByte p
    → is_utf8 (b'/' ∷ p) ≡ true
    → length (file_url host (b'/' ∷ p)) ≤ 4096
    → IsEnd end
    → (scan t (report (file_url host (b'/' ∷ p)) end)).cwd ≡ named_path p
scan-report-file_url t host p end s h hp u room stop =
    let url = file_url host (b'/' ∷ p) in
    let ok : All IsUrl url = file_url-IsUrl host (b'/' ∷ p) h (omega arith, hp) in
    let ascii : is_utf8 url ≡ true = is_utf8_ascii url (All-map (λ c k. k.1) url ok) in
    let body : All IsBody url = All-map (λ c k. (omega arith, omega arith)) url ok in
    ap (λ (r : Osc7). r.cwd) (scan-report t url end s body room stop)
    ∙ ap cwd_of_url (from_utf8_lossy-eq_self url ascii)
    ∙ cwd_of_url-file_url host p h hp u

-- Under the conditions of `scan-report-file_url`, a Windows path `d:rest`, reported as `/d:rest`,
-- is the directory.
pub scan-report_drive :
    (t : Osc7) (host rest : Bytes) (d end : ℕ)
    → t.state ≤ 1
    → All IsHost host
    → IsByte d × All IsByte rest
    → is_utf8 (b'/' ∷ d ∷ b':' ∷ rest) ≡ true
    → length (file_url host (b'/' ∷ d ∷ b':' ∷ rest)) ≤ 4096
    → IsEnd end
    → (scan t (report (file_url host (b'/' ∷ d ∷ b':' ∷ rest)) end)).cwd ≡ d ∷ b':' ∷ rest
scan-report_drive t host rest d end s h hp u room stop =
    scan-report-file_url t host (d ∷ b':' ∷ rest) end s h (hp.0, (omega arith, hp.1)) u room stop
